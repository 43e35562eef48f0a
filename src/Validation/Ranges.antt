-- ===== src/Validation/Ranges.antt =====
-- The bounds that `validatePort`, `validateTimeout` and `validateCount` of
-- webClient/frontend/src/utils/validation.ts put on a number or on the text of one.
use waddle_perf.Common.{
  ℕ, suc, ◌-◌, ◌*◌, ◌≤◌, ◌≡◌, inl, inr, ◌↔◌, [], ◌∷◌, Bool, true, false, ◌==◌, arith, Bool-cases,
}
use waddle_perf.Regex.{Text}
use waddle_perf.Js.Strings.{trim_start}
use waddle_perf.Js.Number.{
  Number, nan, pos_inf, neg_inf, frac, is_nan, lt_nat, gt_nat, is_digit, read_digits, parse_digits,
  parse_sign, parse_int,
}
use waddle_perf.Validation.{Input, to_number, validate_port, validate_timeout, validate_count}

-- The number is finite, and lies from `lo` to `hi`, both included.
abbrev pub Between : ℕ → ℕ → Number → Type 0
Between lo hi nan = ⊥
Between lo hi pos_inf = ⊥
Between lo hi neg_inf = ⊥
Between lo hi (frac true n d) = ⊥
Between lo hi (frac false n d) = (lo * suc d ≤ n) × (n ≤ hi * suc d)

-- The three tests of a validator together.
Between-sound :
    (lo hi : ℕ) (x : Number)
    → 1 ≤ lo
    → is_nan x ≡ false
    → lt_nat x lo ≡ false
    → gt_nat x hi ≡ false
    → Between lo hi x
unfolding is_nan lt_nat gt_nat
Between-sound lo hi nan p a b c = cc
Between-sound lo hi pos_inf p a b c = cc
Between-sound lo hi neg_inf p a b c = cc
Between-sound lo hi (frac true n d) p a b c = ground arith
Between-sound lo hi (frac false n d) p a b c = ground arith

Between-complete :
    (lo hi : ℕ) (x : Number)
    → Between lo hi x
    → (is_nan x ≡ false) × (lt_nat x lo ≡ false) × (gt_nat x hi ≡ false)
unfolding is_nan lt_nat gt_nat
Between-complete lo hi nan h = absurd h
Between-complete lo hi pos_inf h = absurd h
Between-complete lo hi neg_inf h = absurd h
Between-complete lo hi (frac true n d) h = absurd h
Between-complete lo hi (frac false n d) h = ground arith

pub validate_port_iff :
    (port : Input) → ((validate_port port).valid ≡ true) ↔ Between 1 65535 (to_number port)
unfolding validate_port
validate_port_iff port =
    let x = to_number port in
    (
      λ h. Between-sound 1 65535 x (omega arith) (ground arith) (ground arith) (ground arith),
      λ h. let (a, b, c) = Between-complete 1 65535 x h in ground arith,
    )

pub validate_timeout_iff :
    (timeout : Input)
    → ((validate_timeout timeout).valid ≡ true) ↔ Between 1 300 (to_number timeout)
unfolding validate_timeout
validate_timeout_iff timeout =
    let x = to_number timeout in
    (
      λ h. Between-sound 1 300 x (omega arith) (ground arith) (ground arith) (ground arith),
      λ h. let (a, b, c) = Between-complete 1 300 x h in ground arith,
    )

pub validate_count_iff :
    (count : Input) → ((validate_count count).valid ≡ true) ↔ Between 1 1000 (to_number count)
unfolding validate_count
validate_count_iff count =
    let x = to_number count in
    (
      λ h. Between-sound 1 1000 x (omega arith) (ground arith) (ground arith) (ground arith),
      λ h. let (a, b, c) = Between-complete 1 1000 x h in ground arith,
    )

-- The three validators of numbers accept exactly the numbers of their range, and the texts that
-- `parseInt` reads as one: 1 to 65535 for a port, 1 to 300 for a timeout, 1 to 1000 for a count.
pub validate_numbers_iff :
    (x : Input)
    → (((validate_port x).valid ≡ true) ↔ Between 1 65535 (to_number x))
      × (((validate_timeout x).valid ≡ true) ↔ Between 1 300 (to_number x))
      × (((validate_count x).valid ≡ true) ↔ Between 1 1000 (to_number x))
validate_numbers_iff x = (validate_port_iff x, validate_timeout_iff x, validate_count_iff x)

-- The whole numbers among the numbers.
abbrev pub whole : ℕ → Number
whole n = frac false n 0

parse_digits-whole :
    (lo hi : ℕ) (neg : Bool) (s : Text)
    → Between lo hi (parse_digits neg s)
    → (n : ℕ) × (parse_digits neg s ≡ whole n) × (lo ≤ n) × (n ≤ hi)
unfolding parse_digits
parse_digits-whole lo hi neg [] h = absurd h
parse_digits-whole lo hi true (c ∷ s) h = absurd (ground arith)
parse_digits-whole lo hi false (c ∷ s) h = elim (Bool-cases (is_digit c)) [
  | inl d ↦ (read_digits (c - b'0') s, rw d, ground arith, ground arith)
  | inr d ↦ absurd (ground arith)
]

parse_sign-whole :
    (lo hi : ℕ) (s : Text)
    → Between lo hi (parse_sign s)
    → (n : ℕ) × (parse_sign s ≡ whole n) × (lo ≤ n) × (n ≤ hi)
unfolding parse_sign
parse_sign-whole lo hi [] h = absurd h
parse_sign-whole lo hi (c ∷ s) h = elim (Bool-cases (c == b'-')) [
  | inl minus ↦ rw minus (parse_digits-whole lo hi true s (rw minus at h))
  | inr other ↦ elim (Bool-cases (c == b'+')) [
    | inl plus ↦ rw (other, plus) (parse_digits-whole lo hi false s (rw (other, plus) at h))
    | inr none ↦ rw (other, none) (parse_digits-whole lo hi false (c ∷ s) (rw (other, none) at h))
  ]
]

-- What `parseInt` reads within bounds is a whole number.
pub parse_int-whole :
    (lo hi : ℕ) (s : Text)
    → Between lo hi (parse_int s)
    → (n : ℕ) × (parse_int s ≡ whole n) × (lo ≤ n) × (n ≤ hi)
unfolding parse_int
parse_int-whole lo hi s h = parse_sign-whole lo hi (trim_start s) h
