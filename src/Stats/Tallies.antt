-- ===== src/Stats/Tallies.antt =====
-- What the counts of managerServer/frontend/src/pages/Statistics.tsx hold: those of the lists of
-- names.
use waddle_perf.Common.{
  ℕ, ◌+◌, ◌≤◌, List, [], ◌∷◌, length, false, if◌then◌else◌, Option, none, some, ◌≡◌, refl, ◌∙◌, inl,
  inr, Option-cases, arith, All, if_intro,
}
use waddle_perf.Regex.{Text}
use waddle_perf.Js.Strings.{text_eq, text_eq_iff}
use waddle_perf.Stats.Counts.{Entry, get, insert, replace, precedes}
use waddle_perf.Stats.Plain.{plain_bump, plain_onto, plain_tally}

-- How often a name is in a list.
abbrev pub occurrences : Text → List Text → ℕ
occurrences k [] = 0
occurrences k (l ∷ ls) = (if text_eq k l then 1 else 0) + occurrences k ls

abbrev pub or_zero : Option ℕ → ℕ
or_zero none = 0
or_zero (some n) = n

abbrev pub total : List (Entry ℕ) → ℕ
total [] = 0
total (e ∷ es) = e.count + total es

-- No name twice.
abbrev pub IsDistinct : List (Entry ℕ) → Type 0
IsDistinct [] = Unit
IsDistinct (e ∷ es) = (get e.name es ≡ none) × IsDistinct es

pub get-insert :
    (k l : Text) (n : ℕ) (es : List (Entry ℕ))
    → get k es ≡ none
    → get l (insert k n es) ≡ (if text_eq l k then some n else get l es)
unfolding get insert
get-insert k l n [] h = ground arith
get-insert k l n (e ∷ es) h =
    ground (arith, text_eq_iff k e.name, text_eq_iff l k, text_eq_iff l e.name, get-insert k l n es)

pub get-replace :
    (k l : Text) (m n : ℕ) (es : List (Entry ℕ))
    → get k es ≡ some m
    → get l (replace k n es) ≡ (if text_eq l k then some n else get l es)
unfolding get replace
get-replace k l m n [] h = cc
get-replace k l m n (e ∷ es) h =
    ground
      (arith, text_eq_iff k e.name, text_eq_iff l k, text_eq_iff l e.name, get-replace k l m n es)

get-plain_bump :
    (k l : Text) (es : List (Entry ℕ))
    → or_zero (get l (plain_bump k es)) ≡ (if text_eq l k then 1 else 0) + or_zero (get l es)
unfolding plain_bump
get-plain_bump k l es = elim (Option-cases (get k es)) [
  | inl e ↦ ground (arith, e, get-insert k l 1 es e, text_eq_iff l k)
  | inr (m, e) ↦ ground (arith, e, get-replace k l m (m + 1) es e, text_eq_iff l k)
]

get-plain_onto :
    (l : Text) (ks : List Text) (es : List (Entry ℕ))
    → or_zero (get l (plain_onto es ks)) ≡ or_zero (get l es) + occurrences l ks
get-plain_onto l [] es = omega arith
get-plain_onto l (k ∷ ks) es =
    omega (arith, get-plain_onto l ks (plain_bump k es), get-plain_bump k l es)

total-insert : (k : Text) (n : ℕ) (es : List (Entry ℕ)) → total (insert k n es) ≡ n + total es
unfolding insert
total-insert k n [] = refl
total-insert k n (e ∷ es) = ground (arith, total-insert k n es)

total-replace :
    (k : Text) (m n : ℕ) (es : List (Entry ℕ))
    → get k es ≡ some m
    → total (replace k n es) + m ≡ n + total es
unfolding get replace
total-replace k m n [] h = cc
total-replace k m n (e ∷ es) h = ground (arith, total-replace k m n es)

total-plain_bump : (k : Text) (es : List (Entry ℕ)) → total (plain_bump k es) ≡ 1 + total es
unfolding plain_bump
total-plain_bump k es = elim (Option-cases (get k es)) [
  | inl e ↦ rw e (total-insert k 1 es)
  | inr (m, e) ↦ rw e (omega (arith, total-replace k m (m + 1) es e))
]

total-plain_onto :
    (ks : List Text) (es : List (Entry ℕ)) → total (plain_onto es ks) ≡ total es + length ks
total-plain_onto [] es = omega arith
total-plain_onto (k ∷ ks) es =
    omega (arith, total-plain_onto ks (plain_bump k es), total-plain_bump k es)

get-cons_none :
    (k : Text) (e : Entry ℕ) (es : List (Entry ℕ))
    → get k (e ∷ es) ≡ none
    → (text_eq e.name k ≡ false) × (get k es ≡ none)
unfolding get
get-cons_none k e es h = (ground (arith, text_eq_iff k e.name, text_eq_iff e.name k), ground arith)

insert-IsDistinct :
    (k : Text) (n : ℕ) (es : List (Entry ℕ))
    → get k es ≡ none
    → IsDistinct es
    → IsDistinct (insert k n es)
unfolding get insert
insert-IsDistinct k n [] h d = (refl, tt)
insert-IsDistinct k n (e ∷ es) h (f, d) =
    let (apart, h') = get-cons_none k e es h in
    let head : get e.name (insert k n es) ≡ none = get-insert k e.name n es h' ∙ rw apart f in
    if_intro IsDistinct (precedes k e.name) _ _ (h, (f, d)) (head, insert-IsDistinct k n es h' d)

get-replace-none :
    (k l : Text) (n : ℕ) (es : List (Entry ℕ)) → get l es ≡ none → get l (replace k n es) ≡ none
unfolding get replace
get-replace-none k l n [] h = refl
get-replace-none k l n (e ∷ es) h = ground (arith, get-replace-none k l n es)

replace-IsDistinct :
    (k : Text) (n : ℕ) (es : List (Entry ℕ)) → IsDistinct es → IsDistinct (replace k n es)
unfolding get replace
replace-IsDistinct k n [] d = tt
replace-IsDistinct k n (e ∷ es) (f, d) =
    if_intro IsDistinct (text_eq k e.name) _ _ (f, d)
      (get-replace-none k e.name n es f, replace-IsDistinct k n es d)

plain_bump-IsDistinct :
    (k : Text) (es : List (Entry ℕ)) → IsDistinct es → IsDistinct (plain_bump k es)
unfolding plain_bump
plain_bump-IsDistinct k es d = elim (Option-cases (get k es)) [
  | inl e ↦ rw e (insert-IsDistinct k 1 es e d)
  | inr (m, e) ↦ rw e (replace-IsDistinct k (m + 1) es d)
]

plain_onto-IsDistinct :
    (ks : List Text) (es : List (Entry ℕ)) → IsDistinct es → IsDistinct (plain_onto es ks)
plain_onto-IsDistinct [] es d = d
plain_onto-IsDistinct (k ∷ ks) es d =
    plain_onto-IsDistinct ks (plain_bump k es) (plain_bump-IsDistinct k es d)

-- No count is 0.
abbrev pub IsCounted : Entry ℕ → Type 0
IsCounted e = 1 ≤ e.count

insert-IsCounted :
    (k : Text) (n : ℕ) (es : List (Entry ℕ))
    → 1 ≤ n
    → All IsCounted es
    → All IsCounted (insert k n es)
unfolding insert
insert-IsCounted k n [] h c = (h, tt)
insert-IsCounted k n (e ∷ es) h (d, c) =
    if_intro (All IsCounted) (precedes k e.name) _ _ (h, (d, c)) (d, insert-IsCounted k n es h c)

replace-IsCounted :
    (k : Text) (n : ℕ) (es : List (Entry ℕ))
    → 1 ≤ n
    → All IsCounted es
    → All IsCounted (replace k n es)
unfolding replace
replace-IsCounted k n [] h c = tt
replace-IsCounted k n (e ∷ es) h (d, c) =
    if_intro (All IsCounted) (text_eq k e.name) _ _ (h, c) (d, replace-IsCounted k n es h c)

plain_bump-IsCounted :
    (k : Text) (es : List (Entry ℕ)) → All IsCounted es → All IsCounted (plain_bump k es)
unfolding plain_bump
plain_bump-IsCounted k es c = elim (Option-cases (get k es)) [
  | inl e ↦ rw e (insert-IsCounted k 1 es (omega arith) c)
  | inr (m, e) ↦ rw e (replace-IsCounted k (m + 1) es (omega arith) c)
]

plain_onto-IsCounted :
    (ks : List Text) (es : List (Entry ℕ)) → All IsCounted es → All IsCounted (plain_onto es ks)
plain_onto-IsCounted [] es c = c
plain_onto-IsCounted (k ∷ ks) es c =
    plain_onto-IsCounted ks (plain_bump k es) (plain_bump-IsCounted k es c)

-- `es` holds what `ks` does: each name as often as it is in the list, no name twice, none that is not
-- in the list, and all of them together as many as the list has.
pub record IsTally (ks : List Text) (es : List (Entry ℕ)) : Type 0 where
  pub counted : (k : Text) → or_zero (get k es) ≡ occurrences k ks
  pub distinct : IsDistinct es
  pub positive : All IsCounted es
  pub all : total es ≡ length ks

pub plain_tally-IsTally : (ks : List Text) → IsTally ks (plain_tally ks)
unfolding plain_tally get
plain_tally-IsTally ks = record {
  counted = λ k. omega (arith, get-plain_onto k ks []);
  distinct = plain_onto-IsDistinct ks [] tt;
  positive = plain_onto-IsCounted ks [] tt;
  all = omega (arith, total-plain_onto ks []);
}
