-- ===== src/Stats/Sets.antt =====
-- The sets of names in managerServer/frontend/src/pages/Statistics.tsx beside the objects of counts:
-- both have the same names.
use waddle_perf.Common.{
  ℕ, suc, ◌+◌, List, [], ◌∷◌, ◌++◌, length, Bool, true, false, ◌||◌, Option, none, some, ◌≡◌, refl,
  sym, ap, ◌∙◌, inl, inr, Bool-cases, Option-cases, arith, length-append,
}
use waddle_perf.Regex.{Text}
use waddle_perf.Js.Strings.{text_eq, text_eq_iff}
use waddle_perf.Stats.Counts.{Entry, get, insert, replace, member, add, unique_onto, unique}
use waddle_perf.Stats.Plain.{plain_bump, plain_onto, plain_tally}
use waddle_perf.Stats.Tallies.{get-insert, get-replace}

abbrev is_some : Option ℕ → Bool
is_some none = false
is_some (some n) = true

-- A set and an object with the same names.
abbrev SameNames : List Text → List (Entry ℕ) → Type 0
SameNames names es = (k : Text) → member k names ≡ is_some (get k es)

get-bump_some :
    (k l : Text) (es : List (Entry ℕ))
    → is_some (get l (plain_bump k es)) ≡ (text_eq l k || is_some (get l es))
unfolding plain_bump
get-bump_some k l es = elim (Option-cases (get k es)) [
  | inl e ↦ ground (arith, e, get-insert k l 1 es e, text_eq_iff l k)
  | inr (m, e) ↦ ground (arith, e, get-replace k l m (m + 1) es e, text_eq_iff l k)
]

member-append_one :
    (k l : Text) (names : List Text) → member l (names ++ k ∷ []) ≡ (text_eq l k || member l names)
unfolding member
member-append_one k l [] = ground arith
member-append_one k l (m ∷ names) = ground (arith, member-append_one k l names)

pub member-add :
    (k l : Text) (names : List Text) → member l (add names k) ≡ (text_eq l k || member l names)
member-add k l names = elim (Bool-cases (member k names)) [
  | inl e ↦ ground (arith, text_eq_iff l k)
  | inr e ↦ rw e (member-append_one k l names)
]

length-insert : (k : Text) (n : ℕ) (es : List (Entry ℕ)) → length (insert k n es) ≡ suc (length es)
unfolding insert
length-insert k n [] = refl
length-insert k n (e ∷ es) = ground (arith, length-insert k n es)

length-replace : (k : Text) (n : ℕ) (es : List (Entry ℕ)) → length (replace k n es) ≡ length es
unfolding replace
length-replace k n [] = refl
length-replace k n (e ∷ es) = ground (arith, length-replace k n es)

length-add-plain_bump :
    (k : Text) (names : List Text) (es : List (Entry ℕ))
    → SameNames names es
    → length names ≡ length es
    → length (add names k) ≡ length (plain_bump k es)
unfolding plain_bump
length-add-plain_bump k names es same h = elim (Option-cases (get k es)) [
  | inl e ↦ ground (arith, e, same k, length-insert k 1 es, length-append names (k ∷ []))
  | inr (m, e) ↦ ground (arith, e, same k, length-replace k (m + 1) es)
]

SameNames-add-plain_bump :
    (k : Text) (names : List Text) (es : List (Entry ℕ))
    → SameNames names es
    → SameNames (add names k) (plain_bump k es)
SameNames-add-plain_bump k names es same l =
    member-add k l names ∙ ap (λ b. text_eq l k || b) (same l) ∙ sym (get-bump_some k l es)

length-unique_onto :
    (ks names : List Text) (es : List (Entry ℕ))
    → SameNames names es
    → length names ≡ length es
    → length (unique_onto names ks) ≡ length (plain_onto es ks)
length-unique_onto [] names es same h = h
length-unique_onto (k ∷ ks) names es same h =
    length-unique_onto ks (add names k) (plain_bump k es) (SameNames-add-plain_bump k names es same)
      (length-add-plain_bump k names es same h)

pub length-unique : (ks : List Text) → length (unique ks) ≡ length (plain_tally ks)
unfolding unique plain_tally member get
length-unique ks = length-unique_onto ks [] [] (λ k. refl) refl
