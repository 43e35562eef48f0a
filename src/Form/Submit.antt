-- ===== src/Form/Submit.antt =====
-- What a submission of webClient/frontend/src/components/TestForm.tsx sends, and when.
use Prim.Native.String.{String}
use waddle_perf.Common.{
  ℕ, ◌≤◌, ◌≡◌, ◌⊎◌, inl, inr, ◌↔◌, true, false, arith, Option, none, some, length, All, Bool-cases,
}
use waddle_perf.Regex.{Text}
use waddle_perf.Js.Strings.{is_empty, trim}
use waddle_perf.Js.Number.{parse_int}
use waddle_perf.Validation.{
  ValidationResult, string, is_blank, sanitize_string, validate_target, validate_dns_query,
  validate_port, validate_timeout, validate_count,
}
use waddle_perf.Validation.Domain.{IsDomain}
use waddle_perf.Validation.Targets.{IsTarget, validate_target_iff, validate_dns_query_iff}
use waddle_perf.Validation.Ranges.{
  Between, whole, parse_int-whole, validate_port_iff, validate_timeout_iff, validate_count_iff,
}
use waddle_perf.Validation.Sanitize.{IsNotControl, sanitize_string-clean}
use waddle_perf.Form.{
  is_udp, FormState, TestData, Submission, require, protocol_result, test_data, check_query,
  check_numbers, check_port, handle_submit,
}

require_sent :
    (r : ValidationResult) (fallback : String) (s : FormState) (rest : Submission) (d : TestData)
    → (require r fallback s rest).1 ≡ some d
    → (r.valid ≡ true) × (rest.1 ≡ some d)
unfolding require
require_sent r fallback s rest d h = (ground arith, ground arith)

-- The conditions of the validators, on the fields of the form.
pub record IsSubmittable (url_hostname : Text → Option Text) (s : FormState) : Type 0 where
  pub target : IsTarget url_hostname s.target
  pub protocol : (protocol_result s.test_type s.protocol_detail).valid ≡ true
  pub port : (is_empty s.port ≡ true) ⊎ Between 1 65535 (parse_int s.port)
  pub timeout : Between 1 300 (parse_int s.timeout)
  pub count : Between 1 1000 (parse_int s.count)
  pub query :
      (is_udp s.test_type ≡ false)
      ⊎ ((is_blank s.dns_query ≡ false) × (length s.dns_query ≤ 255) × IsDomain s.dns_query)

check_query_sent :
    (s : FormState) (d : TestData)
    → (check_query s).1 ≡ some d
    → ((is_udp s.test_type ≡ false) ⊎ ((validate_dns_query s.dns_query).valid ≡ true))
      × (d ≡ test_data s)
unfolding check_query
check_query_sent s d h = elim (Bool-cases (is_udp s.test_type)) [
  | inl u ↦ let (valid, sent) = require_sent _ _ _ _ d (rw u at h) in (inr valid, ground arith)
  | inr u ↦ (inl u, ground arith)
]

check_port_sent :
    (s : FormState) (d : TestData)
    → (check_port s).1 ≡ some d
    → ((is_empty s.port ≡ true) ⊎ ((validate_port (string s.port)).valid ≡ true))
      × ((check_numbers s).1 ≡ some d)
unfolding check_port
check_port_sent s d h = elim (Bool-cases (is_empty s.port)) [
  | inl e ↦ (inl e, rw e at h)
  | inr e ↦ let (valid, sent) = require_sent _ _ _ _ d (rw e at h) in (inr valid, sent)
]

handle_submit_sound :
    (url_hostname : Text → Option Text) (s : FormState) (d : TestData)
    → (handle_submit url_hostname s).1 ≡ some d
    → IsSubmittable url_hostname s × (d ≡ test_data (record s { validation_error = "" }))
unfolding handle_submit check_numbers
handle_submit_sound url_hostname s d h =
    let t = record s { validation_error = "" } in
    let (target, h1) = require_sent (validate_target url_hostname t.target) _ t _ d h in
    let (protocol, h2) = require_sent (protocol_result t.test_type t.protocol_detail) _ t _ d h1 in
    let (port, h3) = check_port_sent t d h2 in
    let (timeout, h4) = require_sent (validate_timeout (string t.timeout)) _ t _ d h3 in
    let (count, h5) = require_sent (validate_count (string t.count)) _ t _ d h4 in
    let (query, same) = check_query_sent t d h5 in
    (
      record {
        target = (validate_target_iff url_hostname s.target).0 target;
        protocol = protocol;
        port = elim port [ inl e ↦ inl e | inr v ↦ inr ((validate_port_iff (string s.port)).0 v) ];
        timeout = (validate_timeout_iff (string s.timeout)).0 timeout;
        count = (validate_count_iff (string s.count)).0 count;
        query = elim query [
          | inl u ↦ inl u
          | inr v ↦ inr ((validate_dns_query_iff s.dns_query).0 v)
        ];
      },
      same,
    )

pub handle_submit_complete :
    (url_hostname : Text → Option Text) (s : FormState)
    → IsSubmittable url_hostname s
    → handle_submit url_hostname s
      ≡ (record s { validation_error = "" }, some (test_data (record s { validation_error = "" })))
unfolding handle_submit require check_port check_numbers check_query
handle_submit_complete url_hostname s h =
    let target = (validate_target_iff url_hostname s.target).1 h.target in
    let protocol = h.protocol in
    let timeout = (validate_timeout_iff (string s.timeout)).1 h.timeout in
    let count = (validate_count_iff (string s.count)).1 h.count in
    let port : (is_empty s.port ≡ true) ⊎ ((validate_port (string s.port)).valid ≡ true) =
      elim h.port [ inl e ↦ inl e | inr b ↦ inr ((validate_port_iff (string s.port)).1 b) ] in
    let query : (is_udp s.test_type ≡ false) ⊎ ((validate_dns_query s.dns_query).valid ≡ true) =
      elim h.query [ inl u ↦ inl u | inr v ↦ inr ((validate_dns_query_iff s.dns_query).1 v) ] in
    ground arith

-- The form sends data exactly when every validator accepts its field, and then it sends the data
-- that is built from the fields.
pub handle_submit_iff :
    (url_hostname : Text → Option Text) (s : FormState) (d : TestData)
    → ((handle_submit url_hostname s).1 ≡ some d)
      ↔ (IsSubmittable url_hostname s × (d ≡ test_data (record s { validation_error = "" })))
handle_submit_iff url_hostname s d = (
  handle_submit_sound url_hostname s d,
  λ (ok, same). let done = handle_submit_complete url_hostname s ok in rw (done, same),
)

-- The bounds that the server can rely on.
pub record IsWellFormed (d : TestData) : Type 0 where
  pub target : All IsNotControl d.target × (length d.target ≤ 255)
  pub port : (d.port ≡ none) ⊎ ((n : ℕ) × (d.port ≡ some (whole n)) × (1 ≤ n) × (n ≤ 65535))
  pub timeout : (n : ℕ) × (d.timeout ≡ whole n) × (1 ≤ n) × (n ≤ 300)
  pub count : (n : ℕ) × (d.count ≡ whole n) × (1 ≤ n) × (n ≤ 1000)
  pub query :
      ((is_udp d.test_type ≡ false) × (d.query ≡ none))
      ⊎ ((is_udp d.test_type ≡ true)
          × ((q : Text) × (d.query ≡ some q) × All IsNotControl q × (length q ≤ 255)))

test_data-port :
    (s : FormState)
    → (is_empty s.port ≡ true) ⊎ Between 1 65535 (parse_int s.port)
    → ((test_data s).port ≡ none)
      ⊎ ((n : ℕ) × ((test_data s).port ≡ some (whole n)) × (1 ≤ n) × (n ≤ 65535))
unfolding test_data
test_data-port s (inl e) = inl (rw e)
test_data-port s (inr b) = elim (Bool-cases (is_empty s.port)) [
  | inl e ↦ inl (rw e)
  | inr e ↦
      let (n, same, low, high) = parse_int-whole 1 65535 s.port b in
      inr (n, rw (e, same), low, high)
]

test_data-query :
    (s : FormState)
    → (is_udp s.test_type ≡ false) ⊎ (is_blank s.dns_query ≡ false)
    → ((is_udp (test_data s).test_type ≡ false) × ((test_data s).query ≡ none))
      ⊎ ((is_udp (test_data s).test_type ≡ true)
          × ((q : Text) × ((test_data s).query ≡ some q) × All IsNotControl q × (length q ≤ 255)))
unfolding test_data is_blank
test_data-query s h = elim (Bool-cases (is_udp s.test_type)) [
  | inl u ↦
      let blank : is_empty (trim s.dns_query) ≡ false = ground arith in
      let (clean, short) = sanitize_string-clean s.dns_query 255 in
      inr (u, (sanitize_string s.dns_query 255, rw (u, blank), clean, short))
  | inr u ↦ inl (u, rw u)
]

-- Whatever the fields hold, data that is sent is within the bounds: the target and the query are
-- free of control characters and at most 255 long, the port is left out or from 1 to 65535, the
-- timeout is from 1 to 300 and the count from 1 to 1000, and a query is there exactly for UDP.
pub handle_submit-IsWellFormed :
    (url_hostname : Text → Option Text) (s : FormState) (d : TestData)
    → (handle_submit url_hostname s).1 ≡ some d
    → IsWellFormed d
handle_submit-IsWellFormed url_hostname s d h =
    let (ok, same) = handle_submit_sound url_hostname s d h in
    let t = record s { validation_error = "" } in
    let query_ok : (is_udp s.test_type ≡ false) ⊎ (is_blank s.dns_query ≡ false) = elim ok.query [
      | inl u ↦ inl u
      | inr q ↦ inr q.0
    ] in
    rw same (record {
      target = unfold test_data in sanitize_string-clean s.target 255;
      port = test_data-port t ok.port;
      timeout = unfold test_data in parse_int-whole 1 300 s.timeout ok.timeout;
      count = unfold test_data in parse_int-whole 1 1000 s.count ok.count;
      query = test_data-query t query_ok;
    })
