-- ===== src/Js/Splitting.antt =====
-- What `split` leaves: its parts, joined by the separator, are the text.
use waddle_perf.Common.{
  ℕ, ◌≡◌, refl, sym, ap, ◌∙◌, List, [], ◌∷◌, ◌++◌, ◌==◌, arith, Bool-cases, inl, inr,
}
use waddle_perf.Regex.{Text}
use waddle_perf.Js.Strings.{extend, split}

module _ (sep : ℕ) where
  -- The text behind the first part, from the other parts.
  abbrev pub tail_text : List Text → Text
  tail_text [] = []
  tail_text (q ∷ qs) = sep ∷ (q ++ tail_text qs)

  abbrev pub join : List Text → Text
  join [] = []
  join (p ∷ ps) = p ++ tail_text ps

  join-extend : (c : ℕ) (ps : List Text) → join (extend c ps) ≡ c ∷ join ps
  join-extend c [] = refl
  join-extend c (p ∷ ps) = refl

  -- A split has a first part.
  pub split_parts : (w : Text) → (p : Text) × (ps : List Text) × (split sep w ≡ p ∷ ps)
  unfolding split
  split_parts [] = ([], [], refl)
  split_parts (c ∷ w) = elim (Bool-cases (c == sep)) [
    | inl e ↦ ([], split sep w, rw e)
    | inr e ↦ let (p, ps, h) = split_parts w in (c ∷ p, ps, rw (e, h))
  ]

  tail_text-cons :
      (qs : List Text) (p : Text) (ps : List Text) → qs ≡ p ∷ ps → tail_text qs ≡ sep ∷ join qs
  tail_text-cons qs p ps e = rw e

  pub join-split : (w : Text) → join (split sep w) ≡ w
  unfolding split
  join-split [] = refl
  join-split (c ∷ w) = elim (Bool-cases (c == sep)) [
    | inl e ↦
        let (p, ps, h) = split_parts w in
        let same : c ≡ sep = ground arith in
        rw e (
          tail_text-cons (split sep w) p ps h
          ∙ ap (λ t. sep ∷ t) (join-split w)
          ∙ ap (λ d. d ∷ w) (sym same))
    | inr e ↦ rw e (join-extend c (split sep w) ∙ ap (λ t. c ∷ t) (join-split w))
  ]
