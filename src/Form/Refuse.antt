-- ===== src/Form/Refuse.antt =====
-- What a submission of webClient/frontend/src/components/TestForm.tsx does when it sends nothing.
use Prim.Native.String.{String}
use text.Mathlib.TextEquality.{eq_iff}
use waddle_perf.Common.{◌≡◌, ◌≢◌, inl, inr, arith, Option, none, some, Bool-cases, Option-cases}
use waddle_perf.Regex.{Text}
use waddle_perf.Js.Strings.{is_empty}
use waddle_perf.Validation.{
  ValidationResult, string, validate_target, validate_port, validate_timeout, validate_count,
}
use waddle_perf.Form.{
  is_udp, FormState, Submission, error_or, require, protocol_result, test_data, check_query,
  check_numbers, check_port, handle_submit,
}

-- A submission that sends nothing leaves a message, and all else as it was.
abbrev pub IsRefused : FormState → Submission → Type 0
IsRefused s x = (e : String) × (e ≢ "") × (x ≡ (record s { validation_error = e }, none))

error_or-ne : (r : ValidationResult) (fallback : String) → fallback ≢ "" → error_or r fallback ≢ ""
unfolding error_or
error_or-ne r fallback h = elim (Option-cases r.error) [
  | inl n ↦ ground arith
  | inr (e, m) ↦ ground (arith, eq_iff e "")
]

module _ (s : FormState) where
  require-IsRefused :
      (r : ValidationResult) (fallback : String) (rest : Submission)
      → fallback ≢ ""
      → (rest.1 ≡ none → IsRefused s rest)
      → (require r fallback s rest).1 ≡ none
      → IsRefused s (require r fallback s rest)
  unfolding require
  require-IsRefused r fallback rest ne ih h = elim (Bool-cases r.valid) [
    | inl v ↦ rw v (ih (rw v at h))
    | inr v ↦ (error_or r fallback, error_or-ne r fallback ne, rw v)
  ]

  check_query-IsRefused : (check_query s).1 ≡ none → IsRefused s (check_query s)
  unfolding check_query
  check_query-IsRefused h = elim (Bool-cases (is_udp s.test_type)) [
    | inl u ↦ rw u (
        require-IsRefused _ "Invalid DNS query" (s, some (test_data s))
          (ground (arith, eq_iff "Invalid DNS query" "")) (λ e. cc) (rw u at h))
    | inr u ↦ absurd (ground arith)
  ]

  check_numbers-IsRefused : (check_numbers s).1 ≡ none → IsRefused s (check_numbers s)
  unfolding check_numbers
  check_numbers-IsRefused =
      require-IsRefused (validate_timeout (string s.timeout)) "Invalid timeout" _
        (ground (arith, eq_iff "Invalid timeout" ""))
        (require-IsRefused (validate_count (string s.count)) "Invalid count" _
          (ground (arith, eq_iff "Invalid count" "")) check_query-IsRefused)

  check_port-IsRefused : (check_port s).1 ≡ none → IsRefused s (check_port s)
  unfolding check_port
  check_port-IsRefused h = elim (Bool-cases (is_empty s.port)) [
    | inl e ↦ rw e (check_numbers-IsRefused (rw e at h))
    | inr e ↦ rw e (
        require-IsRefused (validate_port (string s.port)) "Invalid port" _
          (ground (arith, eq_iff "Invalid port" "")) check_numbers-IsRefused (rw e at h))
  ]

-- When the form sends nothing, it shows a message that is not empty, and every field is as it was.
pub handle_submit-IsRefused :
    (url_hostname : Text → Option Text) (s : FormState)
    → (handle_submit url_hostname s).1 ≡ none
    → IsRefused s (handle_submit url_hostname s)
unfolding handle_submit
handle_submit-IsRefused url_hostname s h =
    let t = record s { validation_error = "" } in
    require-IsRefused t (validate_target url_hostname t.target) "Invalid target" _
      (ground (arith, eq_iff "Invalid target" ""))
      (require-IsRefused t (protocol_result t.test_type t.protocol_detail) "Invalid protocol" _
        (ground (arith, eq_iff "Invalid protocol" "")) (check_port-IsRefused t))
      h
