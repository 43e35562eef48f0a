-- ===== src/Js/Number.antt =====
-- The numbers that the validators compare, and `parseInt(s, 10)`.
use waddle_perf.Common.{
  ℕ, suc, ◌+◌, ◌-◌, ◌*◌, [], ◌∷◌, Bool, true, false, ◌&&◌, ◌||◌, leb, ltb, ◌==◌, if◌then◌else◌,
}
use waddle_perf.Regex.{Text}
use waddle_perf.Js.Strings.{trim_start}

-- A number: `frac neg n d` is n / (d + 1), negated if `neg` is true. Every finite double is one.
pub data Number : Type 0 where
  nan pos_inf neg_inf : Number
  frac : Bool → ℕ → ℕ → Number

unfoldable pub is_nan : Number → Bool
is_nan nan = true
is_nan _ = false

-- `x < k` and `k < x` for a whole number k that is not negative.
unfoldable pub lt_nat : Number → ℕ → Bool
lt_nat nan k = false
lt_nat pos_inf k = false
lt_nat neg_inf k = true
lt_nat (frac true n d) k = ltb 0 n || ltb 0 k
lt_nat (frac false n d) k = ltb n (k * suc d)

unfoldable pub gt_nat : Number → ℕ → Bool
gt_nat nan k = false
gt_nat pos_inf k = true
gt_nat neg_inf k = false
gt_nat (frac true n d) k = false
gt_nat (frac false n d) k = ltb (k * suc d) n

abbrev pub is_digit : ℕ → Bool
is_digit c = leb b'0' c && leb c b'9'

-- The longest run of digits, read on from `acc`.
unfoldable pub read_digits : ℕ → Text → ℕ
read_digits acc [] = acc
read_digits acc (c ∷ s) =
    let rest = read_digits (acc * 10 + (c - b'0')) s in if is_digit c then rest else acc

unfoldable pub parse_digits : Bool → Text → Number
unfolding read_digits
parse_digits neg [] = nan
parse_digits neg (c ∷ s) = if is_digit c then frac neg (read_digits (c - b'0') s) 0 else nan

unfoldable pub parse_sign : Text → Number
unfolding parse_digits
parse_sign [] = nan
parse_sign (c ∷ s) =
    if c == b'-'
    then parse_digits true s
    else if c == b'+'
    then parse_digits false s
    else parse_digits false (c ∷ s)

unfoldable pub parse_int : Text → Number
unfolding parse_sign trim_start
parse_int s = parse_sign (trim_start s)
