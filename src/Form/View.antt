-- ===== src/Form/View.antt =====
-- What webClient/frontend/src/components/TestForm.tsx renders: the error box, the buttons for the
-- test type, the controls that are on the page, and the submit button.
use Prim.Native.String.{String}
use text.Mathlib.Text.{◌==◌ as str_eq}
use waddle_perf.Common.{
  List, [], ◌∷◌, ◌++◌, Bool, true, false, ◌||◌, if◌then◌else◌, Option, none, some,
}
use waddle_perf.Regex.{Text}
use waddle_perf.Js.Strings.{codes, is_empty, trim}
use waddle_perf.Form.{TestType, http, tcp, udp, icmp, FormState, protocol_options}

-- An `input` or `select` by its `id`; the `options` of an input are empty.
pub record Control : Type 0 where
  pub id : String
  pub label : String
  pub value : Text
  pub placeholder : String
  pub options : List Text
  pub disabled : Bool

pub record TypeButton : Type 0 where
  pub type : TestType
  pub active : Bool
  pub disabled : Bool

pub record FormView : Type 0 where
  pub error_box : Option String
  pub type_buttons : List TypeButton
  pub controls : List Control
  pub submit_label : String
  pub submit_disabled : Bool

unfoldable pub same_type : TestType → TestType → Bool
same_type http http = true
same_type tcp tcp = true
same_type udp udp = true
same_type icmp icmp = true
same_type _ _ = false

unfoldable pub type_button : TestType → Bool → TestType → TypeButton
type_button current running t = record {
  type = t;
  active = same_type current t;
  disabled = running;
}

-- `options.length > 0 && <select …>`; the first option is "Auto-detect", with the empty value.
unfoldable pub protocol_control : FormState → Bool → List Text → List Control
protocol_control s running [] = []
protocol_control s running (o ∷ os) =
    record {
      id = "protocol-detail";
      label = "Protocol";
      value = s.protocol_detail;
      placeholder = "";
      options = [] ∷ o ∷ os;
      disabled = running;
    }
    ∷ []

abbrev pub input : String → String → Text → String → Bool → Control
input id label value placeholder disabled = record {
  id = id;
  label = label;
  value = value;
  placeholder = placeholder;
  options = [];
  disabled = disabled;
}

abbrev pub target_placeholder : TestType → String
target_placeholder http = "example.com or https://example.com"
target_placeholder icmp = "8.8.8.8 or example.com"
target_placeholder _ = "hostname or IP address"

-- The controls between the protocol and the two numbers.
unfoldable pub target_controls : TestType → FormState → Bool → List Control
target_controls udp s running =
    input "target" "Target DNS Server" s.target "8.8.8.8 or dns.google.com" running
    ∷ input "dns-query" "DNS Query (hostname to lookup)" s.dns_query "google.com" running
    ∷ input "port" "Port" (codes "53") "" true
    ∷ []
target_controls icmp s running =
    input "target" "Target Host" s.target (target_placeholder icmp) running ∷ []
target_controls t s running =
    input "target" "Target Host" s.target (target_placeholder t) running
    ∷ input "port" "Port" s.port "Auto-detect" running
    ∷ []

unfoldable pub view : FormState → Bool → FormView
unfolding type_button same_type protocol_control target_controls
view s is_running = record {
  error_box = if str_eq s.validation_error "" then none else some s.validation_error;
  type_buttons =
      type_button s.test_type is_running http
      ∷ type_button s.test_type is_running tcp
      ∷ type_button s.test_type is_running udp
      ∷ type_button s.test_type is_running icmp
      ∷ [];
  controls =
      protocol_control s is_running (protocol_options s.test_type)
      ++ (target_controls s.test_type s is_running
          ++ (input "timeout" "Timeout (s)" s.timeout "" is_running
              ∷ input "count" "Count" s.count "" is_running
              ∷ []));
  submit_label = if is_running then "Running Test..." else "Start Test";
  submit_disabled = is_running || is_empty (trim s.target);
}
