-- ===== src/Validation/Sanitize.antt =====
-- `sanitizeString` of webClient/frontend/src/utils/validation.ts.
use waddle_perf.Common.{ℕ, ◌≤◌, ◌≡◌, false, ltb, arith, length, length-take, take, All, All-map}
use waddle_perf.Regex.{Text}
use waddle_perf.Js.Strings.{trim, length-remove-le}
use waddle_perf.Validation.{is_control, sanitize_string}
use waddle_perf.Validation.Hostname.{IsHostname}
use waddle_perf.Validation.Characters.{
  IsNameChar, IsHostname-chars, name_char-IsNotSpace, IsNotSpace, trim_id, remove_id, All-remove,
}

abbrev pub IsNotControl : ℕ → Type 0
IsNotControl c = is_control c ≡ false

-- The result of `sanitizeString` holds no control character and is no longer than asked for.
pub sanitize_string-clean :
    (input : Text) (max_length : ℕ)
    → All IsNotControl (sanitize_string input max_length)
      × (length (sanitize_string input max_length) ≤ max_length)
unfolding sanitize_string
sanitize_string-clean input max_length = (
  All-remove is_control _,
  ground (
    arith,
    length-take max_length (trim input),
    length-remove-le is_control (trim input),
    length-remove-le is_control (take max_length (trim input)),
  ),
)

-- `sanitizeString` returns a host name of at most `max_length` code units as it is.
sanitize_string-hostname :
    (name : Text) (max_length : ℕ)
    → IsHostname name
    → length name ≤ max_length
    → sanitize_string name max_length ≡ name
unfolding sanitize_string
sanitize_string-hostname name max_length h fits =
    let chars = IsHostname-chars name h in
    let no_space = All-map IsNameChar IsNotSpace name_char-IsNotSpace name chars in
    let no_control = All-map IsNameChar IsNotControl (λ c i. ground arith) name chars in
    let short : ltb max_length (length name) ≡ false = ground arith in
    rw (trim_id name no_space, short) (remove_id is_control name no_control)
