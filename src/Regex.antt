-- ===== src/Regex.antt =====
-- The regular expressions that webClient/frontend/src/utils/validation.ts writes between `/^` and
-- `$/`, and the search of `RegExp.prototype.test` for such an anchored expression.
pub mod Matching
use waddle_perf.Common.{
  ℕ, zero, suc, List, [], ◌∷◌, Bool, true, false, ◌&&◌, ◌||◌, leb, if◌then◌else◌,
}

-- A text as the list of its UTF-16 code units.
abbrev pub Text : Type 0
Text = List ℕ

-- A character class `[a-z0-9-]`, as its ranges.
abbrev pub Class : Type 0
Class = List (ℕ × ℕ)

abbrev pub in_class : Class → ℕ → Bool
in_class [] c = false
in_class ((lo, hi) ∷ k) c = (leb lo c && leb c hi) || in_class k c

pub data Regex : Type 0 where
  fail eps : Regex
  set : Class → Regex
  cat alt : Regex → Regex → Regex
  star : Regex → Regex

-- `r?`
abbrev pub opt : Regex → Regex
opt r = alt eps r

-- `r{0,n}`
abbrev pub up_to : ℕ → Regex → Regex
up_to zero r = eps
up_to (suc n) r = alt eps (cat r (up_to n r))

-- `r{n}`
abbrev pub times : ℕ → Regex → Regex
times zero r = eps
times (suc n) r = cat r (times n r)

unfoldable pub nullable : Regex → Bool
nullable fail = false
nullable eps = true
nullable (set k) = false
nullable (cat r s) = nullable r && nullable s
nullable (alt r s) = nullable r || nullable s
nullable (star r) = true

-- What is left of the expression behind the character `c`.
unfoldable pub deriv : ℕ → Regex → Regex
deriv c fail = fail
deriv c eps = fail
deriv c (set k) = if in_class k c then eps else fail
deriv c (cat r s) =
    let first = cat (deriv c r) s in
    let second = deriv c s in if nullable r then alt first second else first
deriv c (alt r s) = alt (deriv c r) (deriv c s)
deriv c (star r) = cat (deriv c r) (star r)

unfoldable pub test : Regex → Text → Bool
unfolding nullable deriv
test r [] = nullable r
test r (c ∷ w) = test (deriv c r) w
