-- ===== src/Validation/Host.antt =====
-- The host that `validateTarget` of webClient/frontend/src/utils/validation.ts takes of a target
-- without its scheme.
use waddle_perf.Common.{
  ℕ, [], ◌∷◌, ◌++◌, ◌==◌, ◌≡◌, ◌≢◌, ◌⊎◌, refl, sym, ap, subst, ◌∙◌, inl, inr, arith, All, false,
  Bool-cases,
}
use waddle_perf.Regex.{Text}
use waddle_perf.Js.Strings.{codes, includes, starts_with, extend, split, first}
use waddle_perf.Js.Splitting.{split_parts}
use waddle_perf.Validation.{host_of}

-- `host` is what stands in `clean` before the first colon: all of it, where there is none.
pub record IsHostOf (host clean : Text) : Type 0 where
  pub no_colon : All (λ c. c ≢ b':') host
  pub parted : (clean ≡ host) ⊎ ((rest : Text) × (clean ≡ host ++ b':' ∷ rest))

first-extend : (c : ℕ) (w : Text) → first (extend c (split b':' w)) ≡ c ∷ first (split b':' w)
first-extend c w = let (p, ps, h) = split_parts b':' w in rw h refl

extend-IsHostOf : (c : ℕ) (w host : Text) → c ≢ b':' → IsHostOf host w → IsHostOf (c ∷ host) (c ∷ w)
extend-IsHostOf c w host n h = record {
  no_colon = (n, h.no_colon);
  parted = elim h.parted [
    | inl all ↦ inl (ap (λ t. c ∷ t) all)
    | inr (rest, e) ↦ inr (rest, ap (λ t. c ∷ t) e)
  ];
}

first-split-IsHostOf : (w : Text) → IsHostOf (first (split b':' w)) w
unfolding split
first-split-IsHostOf [] = record { no_colon = tt; parted = inl refl }
first-split-IsHostOf (c ∷ w) = elim (Bool-cases (c == b':')) [
  | inl e ↦
      let same : c ≡ b':' = ground arith in
      rw e (record { no_colon = tt; parted = inr (w, ap (λ d. d ∷ w) same) })
  | inr e ↦ rw e (
      subst (λ p. IsHostOf p (c ∷ w)) (sym (first-extend c w))
        (extend-IsHostOf c w (first (split b':' w)) (ground arith) (first-split-IsHostOf w)))
]

-- There is one such host at most.
first-split-eq :
    (host rest : Text)
    → All (λ c. c ≢ b':') host
    → (first (split b':' host) ≡ host) × (first (split b':' (host ++ b':' ∷ rest)) ≡ host)
unfolding split
first-split-eq [] rest h = (refl, refl)
first-split-eq (c ∷ host) rest (n, h) =
    let other : (c == b':') ≡ false = ground arith in
    let (whole, part) = first-split-eq host rest h in
    rw other (
      first-extend c host ∙ ap (λ t. c ∷ t) whole,
      first-extend c (host ++ b':' ∷ rest) ∙ ap (λ t. c ∷ t) part,
    )

split-no_colon : (w : Text) → includes w (codes ":") ≡ false → first (split b':' w) ≡ w
unfolding split includes starts_with
split-no_colon [] h = refl
split-no_colon (c ∷ w) h =
    let other : (c == b':') ≡ false = ground arith in
    let later : includes w (codes ":") ≡ false = ground arith in
    rw other (first-extend c w ∙ ap (λ t. c ∷ t) (split-no_colon w later))

host_of-eq : (clean : Text) → host_of clean ≡ first (split b':' clean)
unfolding host_of
host_of-eq clean = elim (Bool-cases (includes clean (codes ":"))) [
  | inl e ↦ rw e refl
  | inr e ↦ rw e (sym (split-no_colon clean e))
]

pub host_of-IsHostOf : (clean : Text) → IsHostOf (host_of clean) clean
host_of-IsHostOf clean =
    subst (λ h. IsHostOf h clean) (sym (host_of-eq clean)) (first-split-IsHostOf clean)

pub IsHostOf-eq : (host clean : Text) → IsHostOf host clean → host_of clean ≡ host
IsHostOf-eq host clean h = host_of-eq clean ∙ elim h.parted [
  | inl all ↦ ap (λ w. first (split b':' w)) all ∙ (first-split-eq host [] h.no_colon).0
  | inr (rest, e) ↦ ap (λ w. first (split b':' w)) e ∙ (first-split-eq host rest h.no_colon).1
]
