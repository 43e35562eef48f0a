-- ===== src/Form.antt =====
-- The test form of webClient/frontend/src/components/TestForm.tsx: its state, the change of the test
-- type, the submission, and what it renders. A handler returns the new state; a submission also
-- returns the data that it passes to `onTestStart`.
pub mod View
pub mod Submit
pub mod Refuse
pub mod Reach
use Prim.Native.String.{String}
use text.Mathlib.Text.{◌==◌ as str_eq}
use waddle_perf.Common.{List, [], ◌∷◌, Bool, true, false, not, if◌then◌else◌, Option, none, some}
use waddle_perf.Regex.{Text}
use waddle_perf.Js.Strings.{codes, is_empty, trim}
use waddle_perf.Js.Number.{Number, parse_int}
use waddle_perf.Validation.{
  ValidationResult, string, validate_target, validate_dns_query, validate_port, validate_timeout,
  validate_count, validate_http_protocol, validate_tcp_protocol, validate_udp_protocol,
  validate_icmp_protocol, sanitize_string, max_target_length, max_query_length,
}

-- `testType` is a string that only takes these four values.
pub data TestType : Type 0 where
  http tcp udp icmp : TestType

pub record FormState : Type 0 where
  pub test_type : TestType
  pub target : Text
  pub port : Text
  pub timeout : Text
  pub count : Text
  pub protocol_detail : Text
  pub dns_query : Text
  pub validation_error : String

abbrev pub initial : FormState
initial = record {
  test_type = http;
  target = [];
  port = [];
  timeout = codes "30";
  count = codes "10";
  protocol_detail = [];
  dns_query = codes "google.com";
  validation_error = "";
}

abbrev pub protocol_options : TestType → List Text
protocol_options http = codes "HTTP/1.1" ∷ codes "HTTP/2" ∷ codes "HTTP/3" ∷ []
protocol_options tcp = codes "Raw TCP" ∷ codes "SSH" ∷ codes "TLS" ∷ []
protocol_options udp = []
protocol_options icmp = []

abbrev pub default_ports : TestType → Text
default_ports http = codes "443"
default_ports tcp = codes "22"
default_ports udp = codes "53"
default_ports icmp = []

abbrev pub is_udp : TestType → Bool
is_udp udp = true
is_udp _ = false

unfoldable pub handle_test_type_change : TestType → FormState → FormState
handle_test_type_change new_type s =
    let t = record s { test_type = new_type; port = default_ports new_type } in
    if is_udp new_type
    then record t { protocol_detail = codes "DNS"; port = codes "53" }
    else record t { protocol_detail = [] }

-- A key that is absent is `none`.
pub record TestData : Type 0 where
  pub test_type : TestType
  pub target : Text
  pub port : Option Number
  pub timeout : Number
  pub count : Number
  pub protocol_detail : Option Text
  pub query : Option Text

abbrev pub Submission : Type 0
Submission = FormState × Option TestData

-- `result.error || fallback`
unfoldable pub error_or : ValidationResult → String → String
error_or r fallback = elim r.error [
  | none ↦ fallback
  | some e ↦ if str_eq e "" then fallback else e
]

-- `if (!result.valid) { setValidationError(result.error || fallback); return }`
unfoldable pub require : ValidationResult → String → FormState → Submission → Submission
require r fallback s rest =
    if not r.valid then (record s { validation_error = error_or r fallback }, none) else rest

-- `protocolDetail || 'DNS'`
abbrev pub or_dns : Text → Text
or_dns p = if is_empty p then codes "DNS" else p

unfoldable pub protocol_result : TestType → Text → ValidationResult
protocol_result http p = validate_http_protocol p
protocol_result tcp p = validate_tcp_protocol p
protocol_result udp p = validate_udp_protocol (or_dns p)
protocol_result icmp p = validate_icmp_protocol p

unfoldable pub test_data : FormState → TestData
test_data s = record {
  test_type = s.test_type;
  target = sanitize_string s.target max_target_length;
  port = if is_empty s.port then none else some (parse_int s.port);
  timeout = parse_int s.timeout;
  count = parse_int s.count;
  protocol_detail =
      if is_empty s.protocol_detail then none else some (sanitize_string s.protocol_detail 50);
  query =
      if is_udp s.test_type
      then if is_empty (trim s.dns_query)
        then none
        else some (sanitize_string s.dns_query max_query_length)
      else none;
}

unfoldable pub check_query : FormState → Submission
check_query s =
    let sent : Submission = (s, some (test_data s)) in
    if is_udp s.test_type
    then require (validate_dns_query s.dns_query) "Invalid DNS query" s sent
    else sent

unfoldable pub check_numbers : FormState → Submission
check_numbers s =
    require (validate_timeout (string s.timeout)) "Invalid timeout" s
      (require (validate_count (string s.count)) "Invalid count" s (check_query s))

unfoldable pub check_port : FormState → Submission
check_port s =
    if is_empty s.port
    then check_numbers s
    else require (validate_port (string s.port)) "Invalid port" s (check_numbers s)

unfoldable pub handle_submit : (Text → Option Text) → FormState → Submission
handle_submit url_hostname s =
    let t = record s { validation_error = "" } in
    require (validate_target url_hostname t.target) "Invalid target" t
      (require (protocol_result t.test_type t.protocol_detail) "Invalid protocol" t (check_port t))
