-- ===== src/Validation/Octet.antt =====
-- One part of an address, as IP_REGEX of webClient/frontend/src/utils/validation.ts reads it: one to
-- three digits, at most 255.
use waddle_perf.Common.{
  ℕ, ◌+◌, ◌-◌, ◌*◌, ◌≤◌, ◌≡◌, refl, inl, inr, [], ◌∷◌, true, leb, arith, length, All, All-map,
  Bool-cases,
}
use waddle_perf.Regex.{Text}
use waddle_perf.Regex.Matching.{Matches}
use waddle_perf.Js.Number.{is_digit, read_digits}
use waddle_perf.Validation.Patterns.{octet}
use waddle_perf.Validation.Hostname.{IsLabel, IsNotDot}

abbrev IsDigit : ℕ → Type 0
IsDigit c = is_digit c ≡ true

-- The number that a text of digits writes.
abbrev pub value : Text → ℕ
value w = read_digits 0 w

pub record IsOctet (w : Text) : Type 0 where
  pub digits : All IsDigit w
  pub some_digit : 1 ≤ length w
  pub three : length w ≤ 3
  pub small : value w ≤ 255

one_digit : (a : ℕ) → IsDigit a → IsOctet (a ∷ [])
unfolding read_digits
one_digit a h = ground arith

two_digits : (a b : ℕ) → IsDigit a → IsDigit b → IsOctet (a ∷ b ∷ [])
unfolding read_digits
two_digits a b h k = ground arith

three_digits :
    (a b c : ℕ)
    → IsDigit a
    → IsDigit b
    → IsDigit c
    → (a - b'0') * 100 + (b - b'0') * 10 + (c - b'0') ≤ 255
    → IsOctet (a ∷ b ∷ c ∷ [])
unfolding read_digits
three_digits a b c ha hb hc h = ground arith

pub octet_sound : (w : Text) → Matches octet w → IsOctet w
unfolding octet
octet_sound w (inl (u, v, e, (a, ea, ha), (x, y, ev, (b, eb, hb), (c, ec, hc)))) =
    rw (e, ea, ev, eb, ec)
      (three_digits a b c (ground arith) (ground arith) (ground arith) (ground arith))
octet_sound w (inr (inl (u, v, e, (a, ea, ha), (x, y, ev, (b, eb, hb), (c, ec, hc))))) =
    rw (e, ea, ev, eb, ec)
      (three_digits a b c (ground arith) (ground arith) (ground arith) (ground arith))
octet_sound w (inr (inr (u, v, e, inl ea, (x, y, ev, (b, eb, hb), inl ey)))) =
    rw (e, ea, ev, eb, ey) (one_digit b (ground arith))
octet_sound w (inr (inr (u, v, e, inl ea, (x, y, ev, (b, eb, hb), inr (c, ec, hc))))) =
    rw (e, ea, ev, eb, ec) (two_digits b c (ground arith) (ground arith))
octet_sound w (inr (inr (u, v, e, inr (a, ea, ha), (x, y, ev, (b, eb, hb), inl ey)))) =
    rw (e, ea, ev, eb, ey) (two_digits a b (ground arith) (ground arith))
octet_sound w (inr (inr (u, v, e, inr (a, ea, ha), (x, y, ev, (b, eb, hb), inr (c, ec, hc))))) =
    rw (e, ea, ev, eb, ec)
      (three_digits a b c (ground arith) (ground arith) (ground arith) (ground arith))

value_three :
    (a b c : ℕ)
    → IsDigit a
    → IsDigit b
    → IsDigit c
    → value (a ∷ b ∷ c ∷ []) ≡ (a - b'0') * 100 + (b - b'0') * 10 + (c - b'0')
unfolding read_digits
value_three a b c p q r = ground arith

three_complete :
    (a b c : ℕ)
    → IsDigit a
    → IsDigit b
    → IsDigit c
    → (a - b'0') * 100 + (b - b'0') * 10 + (c - b'0') ≤ 255
    → Matches octet (a ∷ b ∷ c ∷ [])
unfolding octet
three_complete a b c p q r h = elim (Bool-cases (leb a b'1')) [
  | inl low ↦ inr (
      inr (
        a ∷ [],
        b ∷ c ∷ [],
        refl,
        inr (a, refl, ground arith),
        (b ∷ [], c ∷ [], refl, (b, refl, ground arith), inr (c, refl, ground arith)),
      ))
  | inr high ↦ elim (Bool-cases (leb b b'4')) [
    | inl low ↦ inr (
        inl (
          a ∷ [],
          b ∷ c ∷ [],
          refl,
          (a, refl, ground arith),
          (b ∷ [], c ∷ [], refl, (b, refl, ground arith), (c, refl, ground arith)),
        ))
    | inr top ↦ inl (
      a ∷ [],
      b ∷ c ∷ [],
      refl,
      (a, refl, ground arith),
      (b ∷ [], c ∷ [], refl, (b, refl, ground arith), (c, refl, ground arith)),
    )
  ]
]

pub octet_complete : (w : Text) → IsOctet w → Matches octet w
unfolding octet
octet_complete [] h = absurd (let p = h.some_digit in omega arith)
octet_complete (b ∷ []) h =
    inr (inr ([], b ∷ [], refl, inl refl, (b ∷ [], [], refl, (b, refl, ground arith), inl refl)))
octet_complete (a ∷ b ∷ []) h =
    let (p, q) = h.digits in
    inr (
      inr (
        [],
        a ∷ b ∷ [],
        refl,
        inl refl,
        (a ∷ [], b ∷ [], refl, (a, refl, ground arith), inr (b, refl, ground arith)),
      ))
octet_complete (a ∷ b ∷ c ∷ []) h =
    let p = h.digits.0 in
    let q = h.digits.1.0 in
    let r = h.digits.1.1.0 in three_complete a b c p q r (rw (value_three a b c p q r) at h.small)
octet_complete (a ∷ b ∷ c ∷ d ∷ w) h = absurd (let p = h.three in omega arith)

digit→not_dot : (c : ℕ) → IsDigit c → IsNotDot c
digit→not_dot c h = ground arith

pub octet-IsNotDot : (w : Text) → IsOctet w → All IsNotDot w
octet-IsNotDot w h = All-map IsDigit IsNotDot digit→not_dot w h.digits

pub octet-IsLabel : (w : Text) → IsOctet w → IsLabel w
octet-IsLabel [] h = absurd (let p = h.some_digit in omega arith)
octet-IsLabel (a ∷ []) h =
    let p = h.digits.0 in
    record {
      chars = (ground arith, tt);
      short = omega arith;
      starts = ground arith;
      ends = ground arith;
    }
octet-IsLabel (a ∷ b ∷ []) h =
    let p = h.digits.0 in
    let q = h.digits.1.0 in
    record {
      chars = (ground arith, (ground arith, tt));
      short = omega arith;
      starts = ground arith;
      ends = ground arith;
    }
octet-IsLabel (a ∷ b ∷ c ∷ []) h =
    let p = h.digits.0 in
    let q = h.digits.1.0 in
    let r = h.digits.1.1.0 in
    record {
      chars = (ground arith, (ground arith, (ground arith, tt)));
      short = omega arith;
      starts = ground arith;
      ends = ground arith;
    }
octet-IsLabel (a ∷ b ∷ c ∷ d ∷ w) h = absurd (let p = h.three in omega arith)
