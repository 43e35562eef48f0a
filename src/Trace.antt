-- ===== src/Trace.antt =====
-- The trace test of webClient/frontend/src/components/TraceTest.tsx: its form, what it submits, and
-- the listeners that its effect adds to the current socket, each with the `isRunning` of the time
-- when it was added; none is ever removed. The service is there as what the component asks of it:
-- whether it has a socket, and whether it is connected.
pub mod Laws
pub mod View
pub mod Export
pub mod Bounds
use Prim.Native.String.{String}
use text.Mathlib.Text.{◌==◌ as str_eq}
use waddle_perf.Common.{
  List, [], ◌∷◌, ◌++◌, Bool, true, false, not, ◌&&◌, ◌||◌, if◌then◌else◌, Option, none, some,
}
use waddle_perf.Regex.{Text}
use waddle_perf.Js.Strings.{codes, is_empty, trim}
use waddle_perf.Js.Number.{Number, parse_int}
use waddle_perf.Validation.{
  ValidationResult, string, validate_target, validate_timeout, sanitize_string, max_target_length,
}
use waddle_perf.Form.{error_or}

pub data TraceType : Type 0 where
  http tcp icmp : TraceType

pub record TraceResult : Type 0 where
  pub test_type : String
  pub target : String
  pub hops : Option (List String)
  pub latency_ms : Option Number
  pub success : Bool
  pub error : Option String

-- `sent` and `has_socket`, `is_connected` are the service's; `listeners` are the values of
-- `isRunning` that the listeners of the current socket have kept, in the order of their addition.
pub record TraceState : Type 0 where
  pub test_type : TraceType
  pub target : Text
  pub port : Text
  pub timeout : Text
  pub is_running : Bool
  pub result : Option TraceResult
  pub validation_error : String
  pub show_detailed_results : Bool

pub record TraceData : Type 0 where
  pub test_type : String
  pub target : Text
  pub port : Option Number
  pub timeout : Number
  pub session_id : Option String

pub record TraceWorld : Type 0 where
  pub state : TraceState
  pub listeners : List Bool
  pub has_socket : Bool
  pub is_connected : Bool
  pub sent : List TraceData

abbrev pub initial : TraceState
initial = record {
  test_type = http;
  target = [];
  port = codes "443";
  timeout = codes "30";
  is_running = false;
  result = none;
  validation_error = "";
  show_detailed_results = false;
}

abbrev pub default_ports : TraceType → Text
default_ports http = codes "443"
default_ports tcp = codes "22"
default_ports icmp = []

unfoldable pub handle_test_type_change : TraceType → TraceState → TraceState
handle_test_type_change new_type s = record s {
  test_type = new_type;
  port = default_ports new_type;
}

-- The effect, which runs behind the first render and behind each change of `isRunning`.
unfoldable pub add_listeners : TraceWorld → TraceWorld
add_listeners w =
    if w.has_socket then record w { listeners = w.listeners ++ w.state.is_running ∷ [] } else w

abbrev pub same : Bool → Bool → Bool
same true b = b
same false b = not b

-- `setIsRunning`, with the effect when the value changes.
unfoldable pub set_is_running : Bool → TraceWorld → TraceWorld
unfolding add_listeners
set_is_running b w =
    if same b w.state.is_running
    then w
    else add_listeners (record w { state = record w.state { is_running = b } })

abbrev pub type_name : TraceType → String
type_name http = "http_trace"
type_name tcp = "tcp_trace"
type_name icmp = "traceroute"

abbrev pub is_icmp : TraceType → Bool
is_icmp icmp = true
is_icmp _ = false

-- `sessionId || undefined`
abbrev pub or_undefined : Option String → Option String
or_undefined none = none
or_undefined (some id) = if str_eq id "" then none else some id

unfoldable pub trace_data : Option String → TraceState → TraceData
trace_data session_id s = record {
  test_type = type_name s.test_type;
  target = sanitize_string s.target max_target_length;
  port =
      if not (is_empty s.port) && not (is_icmp s.test_type) then some (parse_int s.port) else none;
  timeout = parse_int s.timeout;
  session_id = or_undefined session_id;
}

unfoldable pub start_test : TraceData → TraceWorld → TraceWorld
start_test d w = if w.has_socket && w.is_connected then record w { sent = d ∷ w.sent } else w

abbrev pub refuse : String → TraceWorld → TraceWorld
refuse error w = record w { state = record w.state { validation_error = error } }

-- `handleSubmit`; the states that it sets are rendered, and the effect has run, when it returns.
unfoldable pub handle_submit : (Text → Option Text) → Option String → Bool → TraceWorld → TraceWorld
handle_submit url_hostname session_id is_authenticated w =
    let v = record w { state = record w.state { validation_error = ""; result = none } } in
    let target_result = validate_target url_hostname v.state.target in
    let timeout_result = validate_timeout (string v.state.timeout) in
    if not is_authenticated
    then refuse "You must be logged in to run tests" v
    else if not target_result.valid
    then refuse (error_or target_result "Invalid target") v
    else if not timeout_result.valid
    then refuse (error_or timeout_result "Invalid timeout") v
    else set_is_running true (start_test (trace_data session_id v.state) v)

-- What a listener with `isRunning` in its closure sets on a message.
unfoldable pub on_test_complete : TraceResult → Bool → TraceWorld → TraceWorld
unfolding set_is_running
on_test_complete r false w = w
on_test_complete r true w =
    set_is_running false (record w { state = record w.state { result = some r } })

unfoldable pub on_error : Option String → Bool → TraceWorld → TraceWorld
unfolding set_is_running
on_error e false w = w
on_error e true w = set_is_running false (record w {
  state = record w.state {
    validation_error = error_or (record { valid = false; error = e }) "Test failed";
  };
})

-- The listeners that are there when the message comes, in their order.
abbrev pub each : (Bool → TraceWorld → TraceWorld) → List Bool → TraceWorld → TraceWorld
each f [] w = w
each f (b ∷ bs) w = each f bs (f b w)
