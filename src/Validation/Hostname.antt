-- ===== src/Validation/Hostname.antt =====
-- What HOSTNAME_REGEX of webClient/frontend/src/utils/validation.ts accepts, said without regular
-- expressions: labels of 1 to 63 letters, digits and hyphens, joined by dots.
use waddle_perf.Common.{
  ℕ, zero, suc, ◌+◌, ◌≤◌, ◌≡◌, refl, sym, ap, ◌∙◌, inl, inr, ◌↔◌, List, [], ◌∷◌, ◌++◌, Bool, true,
  false, ◌==◌, arith, length, length-append, All, All-append, All-append_left, All-map, append-nil,
}
use waddle_perf.Regex.{Text, Class, set, in_class, up_to, opt, cat, test}
use waddle_perf.Regex.Matching.{Matches, Star, done, more, test_iff}
use waddle_perf.Js.Strings.{split}
use waddle_perf.Validation.Patterns.{alnum, inner, dot, label, hostname_regex}
use waddle_perf.Js.Splitting.{split_parts, tail_text, join, join-split}

-- Whether the last code unit is a letter or a digit; `b` is the answer for the empty text.
abbrev pub ends_alnum : Bool → Text → Bool
ends_alnum b [] = b
ends_alnum b (c ∷ l) = ends_alnum (in_class alnum c) l

abbrev pub starts_alnum : Text → Bool
starts_alnum [] = false
starts_alnum (c ∷ l) = in_class alnum c

abbrev pub IsIn : Class → ℕ → Type 0
IsIn k c = in_class k c ≡ true

-- A label of RFC 1123.
pub record IsLabel (l : Text) : Type 0 where
  pub chars : All (IsIn inner) l
  pub short : length l ≤ 63
  pub starts : starts_alnum l ≡ true
  pub ends : ends_alnum false l ≡ true

abbrev pub IsHostname : Text → Type 0
IsHostname w = All IsLabel (split b'.' w)

up_to_sound :
    (n : ℕ) (k : Class) (w : Text) → Matches (up_to n (set k)) w → (length w ≤ n) × All (IsIn k) w
up_to_sound zero k w e = rw e (omega arith, tt)
up_to_sound (suc n) k w (inl e) = rw e (omega arith, tt)
up_to_sound (suc n) k w (inr (u, v, e, (c, eu, i), m)) =
    let (fits, all) = up_to_sound n k v m in rw (e, eu) (omega arith, (i, all))

up_to_complete :
    (n : ℕ) (k : Class) (w : Text) → length w ≤ n → All (IsIn k) w → Matches (up_to n (set k)) w
up_to_complete zero k [] h a = refl
up_to_complete zero k (c ∷ w) h a = absurd (omega arith)
up_to_complete (suc n) k [] h a = inl refl
up_to_complete (suc n) k (c ∷ w) h (i, a) =
    inr (c ∷ [], w, refl, (c, refl, i), up_to_complete n k w (omega arith) a)

ends_alnum-snoc : (b : Bool) (x : Text) (d : ℕ) → ends_alnum b (x ++ d ∷ []) ≡ in_class alnum d
ends_alnum-snoc b [] d = refl
ends_alnum-snoc b (c ∷ x) d = ends_alnum-snoc (in_class alnum c) x d

alnum→inner : (c : ℕ) → IsIn alnum c → IsIn inner c
alnum→inner c h = ground arith

snoc_of_cons : (c : ℕ) (v : Text) → (x : Text) × (d : ℕ) × (c ∷ v ≡ x ++ d ∷ [])
snoc_of_cons c [] = ([], c, refl)
snoc_of_cons c (d ∷ v) = let (x, l, e) = snoc_of_cons d v in (c ∷ x, l, ap (λ t. c ∷ t) e)

label_sound : (w : Text) → Matches label w → IsLabel w
unfolding label
label_sound w (u, v, e, (c, eu, i), inl ev) =
    rw (e, eu, ev)
      (record { chars = (alnum→inner c i, tt); short = omega arith; starts = i; ends = i })
label_sound w (u, v, e, (c, eu, i), inr (x, y, ev, m, (d, ey, j))) =
    let (fits, all) = up_to_sound 61 inner x m in
    rw (e, eu, ev, ey)
      (record {
        chars = (alnum→inner c i, All-append (IsIn inner) x (d ∷ []) all (alnum→inner d j, tt));
        short = omega (arith, length-append x (d ∷ []));
        starts = i;
        ends = ends_alnum-snoc (in_class alnum c) x d ∙ j;
      })

-- The part of a label behind its first code unit, where it has one.
label_tail :
    (v x : Text) (l : ℕ)
    → v ≡ x ++ l ∷ []
    → length v ≤ 62
    → All (IsIn inner) v
    → ((b : Bool) → ends_alnum b v ≡ true)
    → Matches (opt (cat (up_to 61 (set inner)) (set alnum))) v
label_tail v x l e short chars ends =
    let fits : length x + 1 ≤ 62 = omega (arith, length-append x (l ∷ []), ap length e) in
    let all = All-append_left (IsIn inner) x (l ∷ []) (rw e at chars) in
    let last : IsIn alnum l = sym (ends_alnum-snoc false x l) ∙ (rw e at (ends false)) in
    inr (x, l ∷ [], e, up_to_complete 61 inner x (omega arith) all, (l, refl, last))

label_complete : (w : Text) → IsLabel w → Matches label w
unfolding label
label_complete [] h = let e = h.starts in cc
label_complete (c ∷ []) h = (c ∷ [], [], refl, (c, refl, h.starts), inl refl)
label_complete (c ∷ d ∷ v) h =
    let (x, l, e) = snoc_of_cons d v in
    let tail = label_tail (d ∷ v) x l e (omega arith) h.chars.1 (λ b. h.ends) in
    (c ∷ [], d ∷ v, refl, (c, refl, h.starts), tail)

abbrev pub IsNotDot : ℕ → Type 0
IsNotDot c = (c == b'.') ≡ false

inner→not_dot : (c : ℕ) → IsIn inner c → IsNotDot c
inner→not_dot c h = ground arith

pub split_none : (l : Text) → All IsNotDot l → split b'.' l ≡ l ∷ []
unfolding split
split_none [] h = refl
split_none (c ∷ l) (n, h) = rw (n, split_none l h)

pub split_some : (l w : Text) → All IsNotDot l → split b'.' (l ++ b'.' ∷ w) ≡ l ∷ split b'.' w
unfolding split
split_some [] w h = refl
split_some (c ∷ l) w (n, h) = rw (n, split_some l w h)

label-IsNotDot : (l : Text) → IsLabel l → All IsNotDot l
label-IsNotDot l h = All-map (IsIn inner) IsNotDot inner→not_dot l h.chars

pub is_dot : (x : Text) → Matches dot x → x ≡ b'.' ∷ []
is_dot x (c, e, i) = let same : c ≡ b'.' = ground arith in e ∙ ap (λ d. d ∷ []) same

-- Labels behind dots.
rest_sound :
    (u v : Text) → IsLabel u → Star (λ w. Matches (cat dot label) w) v → IsHostname (u ++ v)
rest_sound u v h (done e) = rw (e, append-nil u, split_none u (label-IsNotDot u h)) (h, tt)
rest_sound u v h (more x v' e (d, l, ex, ed, m) s) =
    let shape : v ≡ b'.' ∷ (l ++ v') =
      e ∙ ap (λ t. t ++ v') (ex ∙ ap (λ t. t ++ l) (is_dot d ed)) in
    rw (shape, split_some u (l ++ v') (label-IsNotDot u h)) (h, rest_sound l v' (label_sound l m) s)

pub IsHostname-sound : (w : Text) → Matches hostname_regex w → IsHostname w
unfolding hostname_regex
IsHostname-sound w (u, v, e, m, s) = rw e (rest_sound u v (label_sound u m) s)

rest_complete :
    (ps : List Text) → All IsLabel ps → Star (λ w. Matches (cat dot label) w) (tail_text b'.' ps)
rest_complete [] h = done refl
rest_complete (p ∷ ps) (l, h) =
    more (b'.' ∷ p) (tail_text b'.' ps) refl
      (b'.' ∷ [], p, refl, (b'.', refl, refl), label_complete p l) (rest_complete ps h)

hostname_parts :
    (w p : Text) (ps : List Text)
    → w ≡ p ++ tail_text b'.' ps
    → All IsLabel (p ∷ ps)
    → Matches hostname_regex w
unfolding hostname_regex
hostname_parts w p ps e (l, h) = (p, tail_text b'.' ps, e, label_complete p l, rest_complete ps h)

pub hostname_complete : (w : Text) → IsHostname w → Matches hostname_regex w
hostname_complete w h =
    let (p, ps, e) = split_parts b'.' w in
    hostname_parts w p ps (sym (join-split b'.' w) ∙ ap (join b'.') e) (rw e at h)

-- HOSTNAME_REGEX accepts a text exactly when every part between its dots is a label.
pub hostname_regex_iff : (w : Text) → (test hostname_regex w ≡ true) ↔ IsHostname w
hostname_regex_iff w =
    let (to, from) = test_iff hostname_regex w in
    (λ h. IsHostname-sound w (to h), λ h. from (hostname_complete w h))
