-- ===== src/Stats/Plain.antt =====
-- The counts of names of which no object inherits one, as they are kept by
-- managerServer/frontend/src/pages/Statistics.tsx: plain numbers.
use waddle_perf.Common.{
  ℕ, ◌+◌, List, [], ◌∷◌, map, false, ltb, Option, none, some, ◌≡◌, refl, ap, ◌∙◌, inl, inr, arith,
  All, Bool-cases,
}
use waddle_perf.Regex.{Text}
use waddle_perf.Js.Strings.{text_eq}
use waddle_perf.Stats.Counts.{
  Count, number, Entry, member, inherited_names, proto, get, insert, replace, precedes, insert_by,
  sort_by, below, by_count, bump, bump_found, tally_onto, tally,
}

-- A name that is not inherited.
abbrev pub IsOwn : Text → Type 0
IsOwn k = member k inherited_names ≡ false

abbrev pub plain_found : Option ℕ → Text → List (Entry ℕ) → List (Entry ℕ)
plain_found none k es = insert k 1 es
plain_found (some n) k es = replace k (n + 1) es

unfoldable pub plain_bump : Text → List (Entry ℕ) → List (Entry ℕ)
plain_bump k es = plain_found (get k es) k es

abbrev pub plain_onto : List (Entry ℕ) → List Text → List (Entry ℕ)
plain_onto es [] = es
plain_onto es (k ∷ ks) = plain_onto (plain_bump k es) ks

unfoldable pub plain_tally : List Text → List (Entry ℕ)
plain_tally ks = plain_onto [] ks

unfoldable pub plain_sort : List (Entry ℕ) → List (Entry ℕ)
plain_sort es = sort_by ltb es

abbrev pub as_number : Entry ℕ → Entry Count
as_number e = record { name = e.name; count = number e.count }

abbrev number_if : Option ℕ → Option Count
number_if none = none
number_if (some n) = some (number n)

get-numbers : (k : Text) (es : List (Entry ℕ)) → get k (map as_number es) ≡ number_if (get k es)
unfolding get
get-numbers k [] = refl
get-numbers k (e ∷ es) = elim (Bool-cases (text_eq k e.name)) [
  | inl same ↦ rw same refl
  | inr other ↦ rw other (get-numbers k es)
]

insert-numbers :
    (k : Text) (n : ℕ) (es : List (Entry ℕ))
    → insert k (number n) (map as_number es) ≡ map as_number (insert k n es)
unfolding insert
insert-numbers k n [] = refl
insert-numbers k n (e ∷ es) = elim (Bool-cases (precedes k e.name)) [
  | inl before ↦ rw before refl
  | inr behind ↦ rw behind (ap (λ fs. as_number e ∷ fs) (insert-numbers k n es))
]

replace-numbers :
    (k : Text) (n : ℕ) (es : List (Entry ℕ))
    → replace k (number n) (map as_number es) ≡ map as_number (replace k n es)
unfolding replace
replace-numbers k n [] = refl
replace-numbers k n (e ∷ es) = elim (Bool-cases (text_eq k e.name)) [
  | inl same ↦ rw same refl
  | inr other ↦ rw other (ap (λ fs. as_number e ∷ fs) (replace-numbers k n es))
]

IsOwn-proto : (k : Text) → IsOwn k → text_eq k proto ≡ false
unfolding member
IsOwn-proto k h = ground arith

module _ (inherited_text : Text → Text) where
  bump_found-numbers :
      (o : Option ℕ) (k : Text) (es : List (Entry ℕ))
      → IsOwn k
      → bump_found inherited_text (number_if o) k (map as_number es)
        ≡ map as_number (plain_found o k es)
  bump_found-numbers none k es own = rw (IsOwn-proto k own, own) (insert-numbers k 1 es)
  bump_found-numbers (some n) k es own = replace-numbers k (n + 1) es

  bump-numbers :
      (k : Text) (es : List (Entry ℕ))
      → IsOwn k
      → bump inherited_text k (map as_number es) ≡ map as_number (plain_bump k es)
  unfolding bump plain_bump
  bump-numbers k es own =
      ap (λ o. bump_found inherited_text o k (map as_number es)) (get-numbers k es)
      ∙ bump_found-numbers (get k es) k es own

  tally_onto-numbers :
      (ks : List Text) (es : List (Entry ℕ))
      → All IsOwn ks
      → tally_onto inherited_text (map as_number es) ks ≡ map as_number (plain_onto es ks)
  tally_onto-numbers [] es own = refl
  tally_onto-numbers (k ∷ ks) es (own, rest) =
      ap (λ fs. tally_onto inherited_text fs ks) (bump-numbers k es own)
      ∙ tally_onto-numbers ks (plain_bump k es) rest

  -- Of names that are not inherited the counts are plain numbers.
  pub tally-numbers :
      (ks : List Text) → All IsOwn ks → tally inherited_text ks ≡ map as_number (plain_tally ks)
  unfolding tally plain_tally
  tally-numbers ks own = tally_onto-numbers ks [] own

insert_by-numbers :
    (e : Entry ℕ) (es : List (Entry ℕ))
    → insert_by below (as_number e) (map as_number es) ≡ map as_number (insert_by ltb e es)
insert_by-numbers e [] = refl
insert_by-numbers e (f ∷ es) = elim (Bool-cases (ltb e.count f.count)) [
  | inl less ↦ rw less (ap (λ gs. as_number f ∷ gs) (insert_by-numbers e es))
  | inr not_less ↦ rw not_less refl
]

pub by_count-numbers :
    (es : List (Entry ℕ)) → by_count (map as_number es) ≡ map as_number (plain_sort es)
unfolding sort_by plain_sort
by_count-numbers [] = refl
by_count-numbers (e ∷ es) =
    ap (insert_by below (as_number e)) (by_count-numbers es) ∙ insert_by-numbers e (plain_sort es)
