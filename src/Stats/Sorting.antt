-- ===== src/Stats/Sorting.antt =====
-- The sort of the counts in managerServer/frontend/src/pages/Statistics.tsx: descending, with equal
-- counts in their order.
use waddle_perf.Common.{
  ℕ, suc, ◌≤◌, List, [], ◌∷◌, length, ltb, ◌==◌, if◌then◌else◌, ◌≡◌, refl, ap, ◌∙◌, inl, inr,
  Bool-cases, arith, All, if_intro, All-map,
}
use waddle_perf.Stats.Counts.{Entry, insert_by, sort_by}
use waddle_perf.Stats.Plain.{plain_sort}

-- The entries with a given count, in their order.
abbrev pub with_count : ℕ → List (Entry ℕ) → List (Entry ℕ)
with_count n [] = []
with_count n (e ∷ es) = if e.count == n then e ∷ with_count n es else with_count n es

-- Not above `n`.
abbrev pub AtMost : ℕ → Entry ℕ → Type 0
AtMost n e = e.count ≤ n

abbrev pub IsDescending : List (Entry ℕ) → Type 0
IsDescending [] = Unit
IsDescending (e ∷ es) = All (AtMost e.count) es × IsDescending es

with_count-insert :
    (n : ℕ) (e : Entry ℕ) (es : List (Entry ℕ))
    → with_count n (insert_by ltb e es) ≡ with_count n (e ∷ es)
with_count-insert n e [] = refl
with_count-insert n e (f ∷ es) = ground (arith, with_count-insert n e es)

pub with_count-plain_sort :
    (n : ℕ) (es : List (Entry ℕ)) → with_count n (plain_sort es) ≡ with_count n es
unfolding plain_sort sort_by
with_count-plain_sort n [] = refl
with_count-plain_sort n (e ∷ es) =
    with_count-insert n e (plain_sort es) ∙ ground (arith, with_count-plain_sort n es)

insert-AtMost :
    (n : ℕ) (e : Entry ℕ) (es : List (Entry ℕ))
    → e.count ≤ n
    → All (AtMost n) es
    → All (AtMost n) (insert_by ltb e es)
insert-AtMost n e [] le h = (le, tt)
insert-AtMost n e (f ∷ es) le (p, h) =
    if_intro (All (AtMost n)) (ltb e.count f.count) _ _ (p, insert-AtMost n e es le h) (le, (p, h))

insert-IsDescending :
    (e : Entry ℕ) (es : List (Entry ℕ)) → IsDescending es → IsDescending (insert_by ltb e es)
insert-IsDescending e [] d = (tt, tt)
insert-IsDescending e (f ∷ es) (h, d) = elim (Bool-cases (ltb e.count f.count)) [
  | inl lt ↦ rw lt (insert-AtMost f.count e es (ground arith) h, insert-IsDescending e es d)
  | inr ge ↦
      let le : f.count ≤ e.count = ground arith in
      rw ge ((le, All-map (AtMost f.count) (AtMost e.count) (λ g p. omega arith) es h), (h, d))
]

pub plain_sort-IsDescending : (es : List (Entry ℕ)) → IsDescending (plain_sort es)
unfolding plain_sort sort_by
plain_sort-IsDescending [] = tt
plain_sort-IsDescending (e ∷ es) =
    insert-IsDescending e (plain_sort es) (plain_sort-IsDescending es)

length-insert_by :
    (e : Entry ℕ) (es : List (Entry ℕ)) → length (insert_by ltb e es) ≡ suc (length es)
length-insert_by e [] = refl
length-insert_by e (f ∷ es) = ground (arith, length-insert_by e es)

pub length-plain_sort : (es : List (Entry ℕ)) → length (plain_sort es) ≡ length es
unfolding plain_sort sort_by
length-plain_sort [] = refl
length-plain_sort (e ∷ es) = length-insert_by e (plain_sort es) ∙ ap suc (length-plain_sort es)
