-- ===== src/Validation/Blank.antt =====
-- When a text is blank to the validators of webClient/frontend/src/utils/validation.ts.
use mathlib.Core.List.{reverse-cons}
use waddle_perf.Common.{
  ℕ, [], ◌∷◌, ◌++◌, reverse, true, false, ◌≡◌, ◌⊎◌, ◌↔◌, refl, ap, inl, inr, arith, Bool-cases,
}
use waddle_perf.Regex.{Text}
use waddle_perf.Js.Strings.{is_space, is_empty, trim_start, trim}
use waddle_perf.Validation.{is_blank}

-- One of the code units is no white space.
abbrev pub HasText : Text → Type 0
HasText [] = ⊥
HasText (c ∷ s) = (is_space c ≡ false) ⊎ HasText s

HasText-end : (s : Text) (c : ℕ) → is_space c ≡ false → HasText (s ++ c ∷ [])
HasText-end [] c h = inl h
HasText-end (d ∷ s) c h = inr (HasText-end s c h)

HasText-append : (s t : Text) → HasText s → HasText (s ++ t)
HasText-append [] t h = elim h [ ]
HasText-append (c ∷ s) t (inl h) = inl h
HasText-append (c ∷ s) t (inr h) = inr (HasText-append s t h)

HasText-reverse : (s : Text) → HasText s → HasText (reverse s)
HasText-reverse [] h = elim h [ ]
HasText-reverse (c ∷ s) (inl h) = rw (reverse-cons c s) (HasText-end (reverse s) c h)
HasText-reverse (c ∷ s) (inr h) =
    rw (reverse-cons c s) (HasText-append (reverse s) (c ∷ []) (HasText-reverse s h))

HasText-trim_start : (s : Text) → HasText s → HasText (trim_start s)
unfolding trim_start
HasText-trim_start [] h = elim h [ ]
HasText-trim_start (c ∷ s) h = elim (Bool-cases (is_space c)) [
  | inl e ↦ rw e (elim h [ inl n ↦ absurd (ground arith) | inr later ↦ HasText-trim_start s later ])
  | inr e ↦ rw e (inl e)
]

HasText-is_empty : (s : Text) → HasText s → is_empty s ≡ false
HasText-is_empty [] h = elim h [ ]
HasText-is_empty (c ∷ s) h = refl

HasText-is_blank : (s : Text) → HasText s → is_blank s ≡ false
unfolding is_blank trim
HasText-is_blank s h =
    let first = HasText-reverse (trim_start s) (HasText-trim_start s h) in
    let last = HasText-reverse _ (HasText-trim_start (reverse (trim_start s)) first) in
    rw (HasText-is_empty s h, HasText-is_empty _ last) refl

trim_start-cases : (s : Text) → HasText s ⊎ (trim_start s ≡ [])
unfolding trim_start
trim_start-cases [] = inr refl
trim_start-cases (c ∷ s) = elim (Bool-cases (is_space c)) [
  | inl e ↦ elim (trim_start-cases s) [ inl h ↦ inl (inr h) | inr none ↦ inr (rw e none) ]
  | inr e ↦ inl (inl e)
]

empty_trim : is_empty (reverse (trim_start (reverse []))) ≡ true
unfolding trim_start
empty_trim = refl

is_blank-HasText : (s : Text) → is_blank s ≡ false → HasText s
unfolding is_blank trim
is_blank-HasText s h = elim (trim_start-cases s) [
  | inl found ↦ found
  | inr blank ↦
      absurd
        (ground (arith, ap (λ t. is_empty (reverse (trim_start (reverse t)))) blank, empty_trim))
]

-- A text is not blank exactly if one of its code units is no white space.
pub is_blank_iff : (s : Text) → (is_blank s ≡ false) ↔ HasText s
is_blank_iff s = (is_blank-HasText s, HasText-is_blank s)
