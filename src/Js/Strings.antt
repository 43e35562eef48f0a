-- ===== src/Js/Strings.antt =====
-- String methods over code units.
use Prim.Native.Char.{code}
use Prim.Native.String.{String}
use waddle_perf.Common.{
  ℕ, ◌≤◌, ◌≡◌, refl, ◌↔◌, List, [], ◌∷◌, Bool, true, false, ◌&&◌, ◌||◌, leb, ◌==◌, if◌then◌else◌,
  arith, reverse, length,
}
use waddle_perf.Regex.{Text}

-- The code units of an ASCII literal.
abbrev pub codes : String → Text
codes String.[] = []
codes (String.◌∷◌ c s) = code c ∷ codes s

unfoldable pub text_eq : Text → Text → Bool
text_eq [] [] = true
text_eq (c ∷ s) (d ∷ t) = c == d && text_eq s t
text_eq _ _ = false

-- `s === ''`, which is also what `!s` tests.
abbrev pub is_empty : Text → Bool
is_empty [] = true
is_empty (c ∷ s) = false

-- WhiteSpace and LineTerminator.
unfoldable pub is_space : ℕ → Bool
is_space c =
    (leb 9 c && leb c 13)
    || c == 32
    || c == 160
    || c == 0x1680
    || (leb 0x2000 c && leb c 0x200a)
    || c == 0x2028
    || c == 0x2029
    || c == 0x202f
    || c == 0x205f
    || c == 0x3000
    || c == 0xfeff

unfoldable pub trim_start : Text → Text
trim_start [] = []
trim_start (c ∷ s) = let rest = trim_start s in if is_space c then rest else c ∷ s

unfoldable pub trim : Text → Text
unfolding trim_start is_space
trim s = reverse (trim_start (reverse (trim_start s)))

unfoldable pub starts_with : Text → Text → Bool
starts_with s [] = true
starts_with [] (d ∷ t) = false
starts_with (c ∷ s) (d ∷ t) = c == d && starts_with s t

unfoldable pub includes : Text → Text → Bool
unfolding starts_with
includes [] t = starts_with [] t
includes (c ∷ s) t = starts_with (c ∷ s) t || includes s t

-- `s.split(sep)` for a separator of one code unit; the result is never empty.
abbrev pub extend : ℕ → List Text → List Text
extend c [] = (c ∷ []) ∷ []
extend c (p ∷ ps) = (c ∷ p) ∷ ps

unfoldable pub split : ℕ → Text → List Text
split sep [] = [] ∷ []
split sep (c ∷ s) = let rest = split sep s in if c == sep then [] ∷ rest else extend c rest

-- `parts[0]`
abbrev pub first : List Text → Text
first [] = []
first (p ∷ ps) = p

-- `s.replace(/[…]/g, '')`
unfoldable pub remove : (ℕ → Bool) → Text → Text
remove p [] = []
remove p (c ∷ s) = let rest = remove p s in if p c then rest else c ∷ rest

pub text_eq_iff : (s t : Text) → (text_eq s t ≡ true) ↔ (s ≡ t)
unfolding text_eq
text_eq_iff [] [] = ((λ h. refl), (λ e. refl))
text_eq_iff [] (d ∷ t) = ground arith
text_eq_iff (c ∷ s) [] = ground arith
text_eq_iff (c ∷ s) (d ∷ t) = ground (arith, text_eq_iff s t)

pub length-remove-le : (p : ℕ → Bool) (s : Text) → length (remove p s) ≤ length s
unfolding remove
length-remove-le p [] = omega arith
length-remove-le p (c ∷ s) = ground (arith, length-remove-le p s)
