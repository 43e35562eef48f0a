-- ===== src/Regex/Matching.antt =====
-- The texts that an expression describes, by recursion on the expression, and the proof that the
-- search accepts exactly these.
use waddle_perf.Common.{
  ℕ, [], ◌∷◌, ◌++◌, true, ◌≡◌, refl, sym, ap, ◌∙◌, ◌⊎◌, inl, inr, ◌↔◌, arith, Bool-cases, and_true,
}
use waddle_perf.Regex.{Text, Regex, fail, eps, set, cat, alt, star, in_class, nullable, deriv, test}

pub data Star (P : Text → Type 0) : Text → Type 0 where
  done : {w : Text} → w ≡ [] → Star P w
  more : {w : Text} (u v : Text) → w ≡ u ++ v → P u → Star P v → Star P w

abbrev pub Matches : Regex → Text → Type 0
Matches fail w = ⊥
Matches eps w = w ≡ []
Matches (set k) w = (c : ℕ) × (w ≡ c ∷ []) × (in_class k c ≡ true)
Matches (cat r s) w = (u : Text) × (v : Text) × (w ≡ u ++ v) × Matches r u × Matches s v
Matches (alt r s) w = Matches r w ⊎ Matches s w
Matches (star r) w = Star (λ u. Matches r u) w

nullable_sound : (r : Regex) → nullable r ≡ true → Matches r []
unfolding nullable
nullable_sound fail h = cc
nullable_sound eps h = refl
nullable_sound (set k) h = cc
nullable_sound (cat r s) h =
    let (a, b) = and_true (nullable r) (nullable s) h in
    ([], [], refl, nullable_sound r a, nullable_sound s b)
nullable_sound (alt r s) h = elim (Bool-cases (nullable r)) [
  | inl a ↦ inl (nullable_sound r a)
  | inr a ↦ inr (nullable_sound s (rw a at h))
]
nullable_sound (star r) h = done refl

nil-append_left : (u v : Text) → [] ≡ u ++ v → u ≡ []
nil-append_left [] v e = refl
nil-append_left (c ∷ u) v e = cc

nil-append_right : (u v : Text) → [] ≡ u ++ v → v ≡ []
nil-append_right [] v e = sym e
nil-append_right (c ∷ u) v e = cc

nullable_complete : (r : Regex) (w : Text) → w ≡ [] → Matches r w → nullable r ≡ true
unfolding nullable
nullable_complete fail w e m = absurd m
nullable_complete eps w e m = refl
nullable_complete (set k) w e (c, n, i) = cc
nullable_complete (cat r s) w e (u, v, n, a, b) =
    let split : [] ≡ u ++ v = sym e ∙ n in
    rw (
      nullable_complete r u (nil-append_left u v split) a,
      nullable_complete s v (nil-append_right u v split) b,
    )
nullable_complete (alt r s) w e (inl a) = rw (nullable_complete r w e a)
nullable_complete (alt r s) w e (inr b) = elim (Bool-cases (nullable r)) [
  | inl a ↦ rw a
  | inr a ↦ rw a (nullable_complete s w e b)
]
nullable_complete (star r) w e m = refl

-- The two ways to read a character off a concatenation.
cat_first :
    (c : ℕ) (r s : Regex) (w : Text)
    → ((u : Text) → Matches (deriv c r) u → Matches r (c ∷ u))
    → Matches (cat (deriv c r) s) w
    → Matches (cat r s) (c ∷ w)
cat_first c r s w ih (u, v, e, a, b) = (c ∷ u, v, ap (λ t. c ∷ t) e, ih u a, b)

cat_either :
    (c : ℕ) (r s : Regex) (w : Text)
    → nullable r ≡ true
    → ((u : Text) → Matches (deriv c r) u → Matches r (c ∷ u))
    → (Matches (deriv c s) w → Matches s (c ∷ w))
    → Matches (alt (cat (deriv c r) s) (deriv c s)) w
    → Matches (cat r s) (c ∷ w)
cat_either c r s w n ih later (inl a) = cat_first c r s w ih a
cat_either c r s w n ih later (inr b) = ([], c ∷ w, refl, nullable_sound r n, later b)

deriv_sound : (c : ℕ) (r : Regex) (w : Text) → Matches (deriv c r) w → Matches r (c ∷ w)
unfolding deriv
deriv_sound c fail w m = absurd m
deriv_sound c eps w m = absurd m
deriv_sound c (set k) w m = elim (Bool-cases (in_class k c)) [
  | inl i ↦ (c, ap (λ t. c ∷ t) (rw i at m), i)
  | inr i ↦ absurd (rw i at m)
]
deriv_sound c (cat r s) w m = elim (Bool-cases (nullable r)) [
  | inl n ↦ cat_either c r s w n (deriv_sound c r) (deriv_sound c s w) (rw n at m)
  | inr n ↦ cat_first c r s w (deriv_sound c r) (rw n at m)
]
deriv_sound c (alt r s) w (inl m) = inl (deriv_sound c r w m)
deriv_sound c (alt r s) w (inr m) = inr (deriv_sound c s w m)
deriv_sound c (star r) w (u, v, e, a, b) =
    more (c ∷ u) v (ap (λ t. c ∷ t) e) (deriv_sound c r u a) b

cons_inj : (c d : ℕ) (w u : Text) → ◌≡◌ {A = Text} (c ∷ w) (d ∷ u) → (c ≡ d) × (w ≡ u)
cons_inj c d w u e = ground arith

-- A nonempty repetition begins with a nonempty round.
Star-cons :
    {P : Text → Type 0} (c : ℕ) (w x : Text)
    → x ≡ c ∷ w
    → Star P x
    → (u : Text) × (v : Text) × (w ≡ u ++ v) × P (c ∷ u) × Star P v
Star-cons c w x e (done n) = cc
Star-cons c w x e (more [] v n p t) = Star-cons c w v (sym n ∙ e) t
Star-cons c w x e (more (d ∷ u) v n p t) =
    let (same, rest) = cons_inj c d w (u ++ v) (sym e ∙ n) in (u, v, rest, rw same p, t)

deriv_complete : (c : ℕ) (r : Regex) (w : Text) → Matches r (c ∷ w) → Matches (deriv c r) w
unfolding deriv
deriv_complete c fail w m = absurd m
deriv_complete c eps w m = cc
deriv_complete c (set k) w (d, e, i) = let (same, rest) = cons_inj c d w [] e in rw (same, i) rest
deriv_complete c (cat r s) w ([], v, e, a, b) =
    rw (nullable_complete r [] refl a) (inr (deriv_complete c s w (rw (← e) at b)))
deriv_complete c (cat r s) w (d ∷ u, v, e, a, b) =
    let (same, rest) = cons_inj c d w (u ++ v) e in
    let first = deriv_complete c r u (rw same a) in
    elim (Bool-cases (nullable r)) [
      | inl n ↦ rw n (inl (u, v, rest, first, b))
      | inr n ↦ rw n (u, v, rest, first, b)
    ]
deriv_complete c (alt r s) w (inl m) = inl (deriv_complete c r w m)
deriv_complete c (alt r s) w (inr m) = inr (deriv_complete c s w m)
deriv_complete c (star r) w m =
    let (u, v, e, a, b) = Star-cons c w (c ∷ w) refl m in (u, v, e, deriv_complete c r u a, b)

-- The search accepts exactly the texts that the expression describes.
pub test_iff : (r : Regex) (w : Text) → (test r w ≡ true) ↔ Matches r w
unfolding test
test_iff r [] = (nullable_sound r, nullable_complete r [] refl)
test_iff r (c ∷ w) =
    let (to, from) = test_iff (deriv c r) w in
    (λ h. deriv_sound c r w (to h), λ m. from (deriv_complete c r w m))
