-- ===== src/Stats/Counts.antt =====
-- The objects of counts and the sets that managerServer/frontend/src/pages/Statistics.tsx and
-- Dashboard.tsx fill. An object is the list of its properties in the order of `Object.entries`:
-- names that are array indices first, ascending, then the others as they were added. Every object
-- inherits some names, whose values are no numbers: `inherited_text` is the text that the engine makes
-- of them.
use waddle_perf.Common.{
  ℕ, ◌+◌, ◌-◌, ◌*◌, List, [], ◌∷◌, ◌++◌, map, Bool, true, false, ◌&&◌, ◌||◌, ◌==◌, ltb, leb,
  if◌then◌else◌, Option, none, some,
}
use waddle_perf.Regex.{Text}
use waddle_perf.Js.Strings.{codes, text_eq}

-- What stands under a name: a number, or a text where the name was inherited.
pub data Count : Type 0 where
  number : ℕ → Count
  text : Text → Count

pub record Entry (A : Type 0) : Type 0 where
  pub name : Text
  pub count : A

-- The names of `Object.prototype`.
abbrev pub proto : Text
proto = codes "__proto__"

abbrev pub inherited_names : List Text
inherited_names =
    proto
    ∷ map codes (
        "constructor" ∷ "toString" ∷ "toLocaleString" ∷ "valueOf" ∷ "hasOwnProperty"
        ∷ "isPrototypeOf" ∷ "propertyIsEnumerable" ∷ "__defineGetter__" ∷ "__defineSetter__"
        ∷ "__lookupGetter__" ∷ "__lookupSetter__" ∷ [])

unfoldable pub member : Text → List Text → Bool
member k [] = false
member k (l ∷ ls) = text_eq k l || member k ls

abbrev pub is_digit : ℕ → Bool
is_digit c = leb 48 c && leb c 57

abbrev pub digits_value : ℕ → Text → Option ℕ
digits_value acc [] = some acc
digits_value acc (c ∷ s) =
    let rest = digits_value (acc * 10 + (c - 48)) s in if is_digit c then rest else none

-- An array index is below 2 ^ 32 - 1.
abbrev pub index_bound : Option ℕ → Option ℕ
index_bound none = none
index_bound (some n) = if ltb n 4294967295 then some n else none

-- The number that a name writes without a leading zero.
abbrev pub array_index : Text → Option ℕ
array_index [] = none
array_index (c ∷ []) = index_bound (digits_value 0 (c ∷ []))
array_index (c ∷ d ∷ s) = if c == 48 then none else index_bound (digits_value 0 (c ∷ d ∷ s))

abbrev pub index_before : Option ℕ → Option ℕ → Bool
index_before none j = false
index_before (some i) none = true
index_before (some i) (some j) = ltb i j

-- A new property stands before the first one that it precedes.
unfoldable pub precedes : Text → Text → Bool
precedes k l = index_before (array_index k) (array_index l)

module _ {A : Type 0} where
  unfoldable pub get : Text → List (Entry A) → Option A
  get k [] = none
  get k (e ∷ es) = let rest = get k es in if text_eq k e.name then some e.count else rest

  unfoldable pub insert : Text → A → List (Entry A) → List (Entry A)
  insert k n [] = record { name = k; count = n } ∷ []
  insert k n (e ∷ es) =
      let rest = insert k n es in
      if precedes k e.name then record { name = k; count = n } ∷ e ∷ es else e ∷ rest

  unfoldable pub replace : Text → A → List (Entry A) → List (Entry A)
  replace k n [] = []
  replace k n (e ∷ es) =
      let rest = replace k n es in
      if text_eq k e.name then record { name = e.name; count = n } ∷ es else e ∷ rest

  -- The sort by a comparison `below`, which keeps the order of entries of which none is below the
  -- other.
  abbrev pub insert_by : (A → A → Bool) → Entry A → List (Entry A) → List (Entry A)
  insert_by below e [] = e ∷ []
  insert_by below e (f ∷ es) =
      let rest = insert_by below e es in if below e.count f.count then f ∷ rest else e ∷ f ∷ es

  unfoldable pub sort_by : (A → A → Bool) → List (Entry A) → List (Entry A)
  sort_by below [] = []
  sort_by below (e ∷ es) = insert_by below e (sort_by below es)

-- `.sort((a, b) => b[1] - a[1])`. Where one of them is a text the difference is NaN, which counts as 0;
-- the order that the engine makes of counts with a text among them is its own.
abbrev pub below : Count → Count → Bool
below (number m) (number n) = ltb m n
below (number m) (text t) = false
below (text s) n = false

abbrev pub by_count : List (Entry Count) → List (Entry Count)
by_count es = sort_by below es

module _ (inherited_text : Text → Text) where
  -- `counts[k]`, where it is no own property.
  abbrev pub inherited : Text → Option Count
  inherited k = if member k inherited_names then some (text (inherited_text k)) else none

  -- `counts[k] = n`, and an assignment to `__proto__` of what is no object does nothing.
  abbrev pub assign_new : Text → Count → List (Entry Count) → List (Entry Count)
  assign_new k n es = if text_eq k proto then es else insert k n es

  -- `(v || 0) + 1`
  abbrev pub plus_one : Option Count → Count
  plus_one none = number 1
  plus_one (some (number n)) = number (n + 1)
  plus_one (some (text t)) = text (t ++ codes "1")

  -- `counts[k] = (counts[k] || 0) + 1`
  abbrev pub bump_found : Option Count → Text → List (Entry Count) → List (Entry Count)
  bump_found none k es = assign_new k (plus_one (inherited k)) es
  bump_found (some n) k es = replace k (plus_one (some n)) es

  unfoldable pub bump : Text → List (Entry Count) → List (Entry Count)
  bump k es = bump_found (get k es) k es

  abbrev pub tally_onto : List (Entry Count) → List Text → List (Entry Count)
  tally_onto es [] = es
  tally_onto es (k ∷ ks) = tally_onto (bump k es) ks

  unfoldable pub tally : List Text → List (Entry Count)
  tally ks = tally_onto [] ks

-- `Array.from(new Set(names))`
abbrev pub add : List Text → Text → List Text
add names k = if member k names then names else names ++ k ∷ []

abbrev pub unique_onto : List Text → List Text → List Text
unique_onto names [] = names
unique_onto names (k ∷ ks) = unique_onto (add names k) ks

unfoldable pub unique : List Text → List Text
unique ks = unique_onto [] ks
