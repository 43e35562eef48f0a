-- ===== src/Validation/Patterns.antt =====
-- The three expressions of webClient/frontend/src/utils/validation.ts.
use waddle_perf.Common.{ℕ, [], ◌∷◌}
use waddle_perf.Regex.{Class, Regex, set, cat, alt, star, opt, up_to, times}

-- `[a-zA-Z0-9]` and `[a-zA-Z0-9-]`
abbrev pub alnum : Class
alnum = (b'a', b'z') ∷ (b'A', b'Z') ∷ (b'0', b'9') ∷ []

abbrev pub inner : Class
inner = (b'a', b'z') ∷ (b'A', b'Z') ∷ (b'0', b'9') ∷ (b'-', b'-') ∷ []

abbrev pub dot : Regex
dot = set ((b'.', b'.') ∷ [])

-- `[a-zA-Z0-9]([a-zA-Z0-9-]{0,61}[a-zA-Z0-9])?`
unfoldable pub label : Regex
label = cat (set alnum) (opt (cat (up_to 61 (set inner)) (set alnum)))

unfoldable pub hostname_regex : Regex
hostname_regex = cat label (star (cat dot label))

unfoldable pub domain_regex : Regex
domain_regex = cat label (cat (star (cat dot label)) (opt dot))

abbrev pub digit_to : ℕ → Regex
digit_to hi = set ((b'0', hi) ∷ [])

-- `25[0-5]|2[0-4][0-9]|[01]?[0-9][0-9]?`
unfoldable pub octet : Regex
octet = alt (cat (set ((b'2', b'2') ∷ [])) (cat (set ((b'5', b'5') ∷ [])) (digit_to b'5'))) (
    alt (cat (set ((b'2', b'2') ∷ [])) (cat (digit_to b'4') (digit_to b'9')))
      (cat (opt (digit_to b'1')) (cat (digit_to b'9') (opt (digit_to b'9')))))

unfoldable pub ip_regex : Regex
ip_regex = cat (times 3 (cat octet dot)) octet
