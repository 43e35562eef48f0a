-- ===== src/Stats/Order.antt =====
-- The figures of managerServer/frontend/src/pages/Dashboard.tsx that are computed of counts:
-- functions of the results as a bag. The average latency is left out, since a sum of doubles depends on the order.
use mathlib.Core.List.{Permᴰ, Perm}
use mathlib.Core.List.Permᴰ
use mathlib.Core.Logic.{∥∥₁_elim}
use mathlib.Core.Quot
use mathlib.Core.Quot.{Quot, Quot-set}
use native.Mathlib.Nat.{ℕ_set}
use waddle_perf.Common.{
  ℕ, suc, ◌+◌, List, [], ◌∷◌, length, Bool, true, false, ◌||◌, if◌then◌else◌, ltb, ◌≡◌, refl, sym,
  ap, subst, ◌∙◌, arith, Bool-cases, inl, inr, length-append,
}
use waddle_perf.Regex.{Text}
use waddle_perf.Js.Strings.{text_eq, text_eq_iff}
use waddle_perf.Stats.Counts.{member, add, unique_onto, unique}
use waddle_perf.Stats.Sets.{member-add}
use waddle_perf.Stats.{TestResult, Doubles, succeeded, keep_if, filter, round, unique_devices}
use waddle_perf.Stats.Dashboard.{calculate_stats}

length-perm {ℓ} : {A : Type ℓ} {xs ys : List A} → Permᴰ xs ys → length xs ≡ length ys
length-perm Permᴰ.nil = refl
length-perm (Permᴰ.cons e h) = ap suc (length-perm h)
length-perm (Permᴰ.swap e f) = refl
length-perm (Permᴰ.trans h k) = length-perm h ∙ length-perm k

keep_if-perm :
    (b : Bool) (t : TestResult) {ts us : List TestResult}
    → Permᴰ ts us
    → Permᴰ (keep_if b t ts) (keep_if b t us)
keep_if-perm true t h = Permᴰ.cons refl h
keep_if-perm false t h = h

keep_if-swap :
    (b c : Bool) (t u : TestResult) (ts : List TestResult)
    → Permᴰ (keep_if b t (keep_if c u ts)) (keep_if c u (keep_if b t ts))
keep_if-swap true true t u ts = Permᴰ.swap refl refl
keep_if-swap true false t u ts = Permᴰ.refl (t ∷ ts)
keep_if-swap false true t u ts = Permᴰ.refl (u ∷ ts)
keep_if-swap false false t u ts = Permᴰ.refl ts

filter-perm :
    (p : TestResult → Bool) {ts us : List TestResult}
    → Permᴰ ts us
    → Permᴰ (filter p ts) (filter p us)
filter-perm p Permᴰ.nil = Permᴰ.nil
filter-perm p (Permᴰ.cons {a} {b} {l₁} {l₂} e h) =
    subst (λ u. Permᴰ (keep_if (p a) a (filter p l₁)) (keep_if (p u) u (filter p l₂))) e
      (keep_if-perm (p a) a (filter-perm p h))
filter-perm p (Permᴰ.swap {a} {b} {a'} {b'} {l} e f) =
    subst (λ u. Permᴰ (filter p (a ∷ b ∷ l)) (filter p (a' ∷ u ∷ l))) e
      (subst (λ u. Permᴰ (filter p (a ∷ b ∷ l)) (filter p (u ∷ a ∷ l))) f
        (keep_if-swap (p a) (p b) a b (filter p l)))
filter-perm p (Permᴰ.trans h k) = Permᴰ.trans (filter-perm p h) (filter-perm p k)

-- Two sets with the same names.
SameSet : List Text → List Text → Type 0
SameSet xs ys = (length xs ≡ length ys) × ((k : Text) → member k xs ≡ member k ys)

length-add :
    (names : List Text) (k : Text)
    → length (add names k) ≡ (if member k names then 0 else 1) + length names
length-add names k = elim (Bool-cases (member k names)) [
  | inl e ↦ rw e (omega arith)
  | inr e ↦ rw e (omega (arith, length-append names (k ∷ [])))
]

SameSet-add : (xs ys : List Text) (k : Text) → SameSet xs ys → SameSet (add xs k) (add ys k)
unfolding SameSet
SameSet-add xs ys k (len, same) = (
  length-add xs k
      ∙ ap (λ b. (if b then 0 else 1) + length xs) (same k)
      ∙ ap (λ n. (if member k ys then 0 else 1) + n) len
      ∙ sym (length-add ys k),
  λ l. member-add k l xs ∙ ap (λ b. text_eq l k || b) (same l) ∙ sym (member-add k l ys),
)

or_comm : (a b c : Bool) → (a || (b || c)) ≡ (b || (a || c))
or_comm a b c = ground arith

text_eq_symm : (s t : Text) → text_eq s t ≡ text_eq t s
text_eq_symm s t = ground (arith, text_eq_iff s t, text_eq_iff t s)

SameSet-swap : (xs : List Text) (k l : Text) → SameSet (add (add xs k) l) (add (add xs l) k)
unfolding SameSet
SameSet-swap xs k l = (
  ground (
    arith,
    length-add (add xs k) l,
    length-add xs k,
    length-add (add xs l) k,
    length-add xs l,
    member-add k l xs,
    member-add l k xs,
    text_eq_symm k l,
    text_eq_iff k l,
  ),
  λ m.
      member-add l m (add xs k)
      ∙ ap (λ b. text_eq m l || b) (member-add k m xs)
      ∙ or_comm (text_eq m l) (text_eq m k) (member m xs)
      ∙ ap (λ b. text_eq m k || b) (sym (member-add l m xs))
      ∙ sym (member-add k m (add xs l)),
)

unique_onto-same :
    (ks xs ys : List Text) → SameSet xs ys → SameSet (unique_onto xs ks) (unique_onto ys ks)
unique_onto-same [] xs ys h = h
unique_onto-same (k ∷ ks) xs ys h =
    unique_onto-same ks (add xs k) (add ys k) (SameSet-add xs ys k h)

SameSet-trans : (xs ys zs : List Text) → SameSet xs ys → SameSet ys zs → SameSet xs zs
unfolding SameSet
SameSet-trans xs ys zs (l, h) (m, k) = (l ∙ m, λ t. h t ∙ k t)

SameSet-refl : (xs : List Text) → SameSet xs xs
unfolding SameSet
SameSet-refl xs = (refl, λ t. refl)

unique_onto-perm :
    (xs : List Text) {ks ls : List Text}
    → Permᴰ ks ls
    → SameSet (unique_onto xs ks) (unique_onto xs ls)
unique_onto-perm xs Permᴰ.nil = SameSet-refl xs
unique_onto-perm xs (Permᴰ.cons {a} {b} {l₁} {l₂} e h) =
    subst (λ u. SameSet (unique_onto xs (a ∷ l₁)) (unique_onto xs (u ∷ l₂))) e
      (unique_onto-perm (add xs a) h)
unique_onto-perm xs (Permᴰ.swap {a} {b} {a'} {b'} {l} e f) =
    subst (λ u. SameSet (unique_onto xs (a ∷ b ∷ l)) (unique_onto xs (a' ∷ u ∷ l))) e
      (subst (λ u. SameSet (unique_onto xs (a ∷ b ∷ l)) (unique_onto xs (u ∷ a ∷ l))) f
        (unique_onto-same l (add (add xs a) b) (add (add xs b) a) (SameSet-swap xs a b)))
unique_onto-perm xs (Permᴰ.trans {l₁} {l₂} {l₃} h k) =
    SameSet-trans (unique_onto xs l₁) (unique_onto xs l₂) (unique_onto xs l₃)
      (unique_onto-perm xs h) (unique_onto-perm xs k)

serials : TestResult → Text
serials t = t.device_serial

-- A figure that does not depend on the order, over a truncated permutation.
kept :
    (f : List TestResult → ℕ)
    → ((ts us : List TestResult) → Permᴰ ts us → f ts ≡ f us)
    → (ts us : List TestResult) → Perm ts us
    → f ts ≡ f us
kept f h ts us p = ∥∥₁_elim p (ℕ_set _ _) (h ts us)

-- The numbers of the dashboard that are computed of counts.
abbrev pub counted : Doubles → List TestResult → ℕ × ℕ × ℕ
counted d ts = let s = calculate_stats d ts in (s.total_tests, s.success_rate, s.devices)

-- The rate of `good` tests among `n`, as the dashboard computes it.
abbrev rate : Doubles → ℕ → ℕ → ℕ
rate d good n =
    if ltb 0 n then round (d.times_100 (d.over (record { num = good; den = 1 }) n)) else 0

-- The total, the success rate and the number of devices that the dashboard computes of the results do
-- not depend on their order, whatever the arithmetic of doubles is.
pub calculate_stats-perm :
    (d : Doubles) (ts us : List TestResult) → Perm ts us → counted d ts ≡ counted d us
unfolding calculate_stats unique SameSet serials
calculate_stats-perm d ts us p =
    let total : length ts ≡ length us = kept length (λ xs ys h. length-perm h) ts us p in
    let good : length (filter succeeded ts) ≡ length (filter succeeded us) =
      kept (λ xs. length (filter succeeded xs)) (λ xs ys h. length-perm (filter-perm succeeded h))
        ts us p in
    let names : length (unique_devices ts) ≡ length (unique_devices us) =
      kept (λ xs. length (unique_devices xs))
        (λ xs ys h. (unique_onto-perm [] (Permᴰ.map serials h)).0) ts us p in
    let good_us = length (filter succeeded us) in
    let names_ts = length (unique_devices ts) in
    ap (λ n. (n, rate d (length (filter succeeded ts)) n, names_ts)) total
    ∙ ap (λ g. (length us, rate d g (length us), names_ts)) good
    ∙ ap (λ n. (length us, rate d good_us (length us), n)) names

-- The results without their order, and these numbers as a function of them.
abbrev Bag : Type 0
Bag = Quot (Perm {A = TestResult})

counted_set : IsSet (ℕ × ℕ × ℕ)
counted_set = hlevel ℕ_set

counted-of_bag :
    (d : Doubles)
    → (numbers_of : Bag → ℕ × ℕ × ℕ) × ((ts : List TestResult)
        → numbers_of (Quot.mk ts) ≡ counted d ts)
counted-of_bag d = (Quot.lift counted_set (counted d) (calculate_stats-perm d), λ ts. refl)
