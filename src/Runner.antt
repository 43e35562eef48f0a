-- ===== src/Runner.antt =====
-- The component of webClient/frontend/src/components/TestRunner.tsx over the service of
-- webClient/frontend/src/services/websocket.ts: its state, the listeners that it adds when a
-- connection stands, and the handlers of its page.
pub mod Laws
pub mod Complete
pub mod View
pub mod Charts
pub mod Results
pub mod Tracing
pub mod Page
pub mod Bounds
pub mod Sends
pub mod Press
pub mod Shared
pub mod Closed
pub mod Left
use Prim.Native.String.{String}
use waddle_perf.Common.{
  ℕ, zero, suc, List, [], ◌∷◌, ◌++◌, Bool, true, false, not, ◌&&◌, ◌||◌, ◌==◌, if◌then◌else◌,
  Option, none, some,
}
use waddle_perf.Regex.{Text}
use waddle_perf.Js.Number.{Number, nan, frac}
use waddle_perf.Form.{TestData}
use waddle_perf.Trace.{TraceData}
use waddle_perf.Socket
use waddle_perf.Socket.{Service}

-- Raw results that count as true: their JSON and how many keys they have.
pub record RawResults : Type 0 where
  pub json : String
  pub keys : ℕ

pub record TestCompleteData : Type 0 where
  pub test_type : String
  pub target_host : String
  pub target_ip : String
  pub latency_ms : Option Number
  pub throughput_mbps : Option Number
  pub jitter_ms : Option Number
  pub packet_loss_percent : Option Number
  pub raw_results : Option RawResults
  pub success : Bool
  pub error : Option String

pub record LatencyDataPoint : Type 0 where
  pub timestamp : ℕ
  pub latency : Number
  pub index : ℕ

pub record Metrics : Type 0 where
  pub latency : Number
  pub throughput : Number
  pub jitter : Number
  pub packet_loss : Number

pub data Tab : Type 0 where
  tests speedtest download trace : Tab

pub record RunnerState : Type 0 where
  pub active_tab : Tab
  pub is_running_test : Bool
  pub test_progress : Number
  pub test_result : Option TestCompleteData
  pub latency_data : List LatencyDataPoint
  pub current_metrics : Metrics
  pub ws_connected : Bool

abbrev pub whole : ℕ → Number
whole n = frac false n 0

abbrev pub no_metrics : Metrics
no_metrics = record {
  latency = whole 0;
  throughput = whole 0;
  jitter = whole 0;
  packet_loss = whole 0;
}

abbrev pub initial : RunnerState
initial = record {
  active_tab = speedtest;
  is_running_test = false;
  test_progress = whole 0;
  test_result = none;
  latency_data = [];
  current_metrics = no_metrics;
  ws_connected = false;
}

-- What goes over the sockets: the tests of the form, and the traces of the trace form.
pub data Packet : Type 0 where
  of_form : TestData → Packet
  of_trace : TraceData → Packet

pub record World : Type 0 where
  pub access_token : Option Text
  pub service : Service Packet
  pub state : RunnerState

-- The messages of the server that have listeners. What the listener of a progress message takes
-- from the clock and from `Math.random` comes with the message, for each call of it.
pub data Message : Type 0 where
  test_started : Message
  test_progress_of : (progress : Number) (current_index : ℕ) (draw : ℕ → ℕ × Number) → Message
  test_complete : TestCompleteData → Message
  error : Message

unfoldable pub on_test_started : RunnerState → RunnerState
on_test_started s = record s {
  is_running_test = true;
  test_progress = whole 0;
  test_result = none;
  latency_data = [];
  current_metrics = no_metrics;
}

unfoldable pub on_test_progress : Number → ℕ → ℕ × Number → RunnerState → RunnerState
on_test_progress progress current_index (now, simulated) s = record s {
  test_progress = progress;
  latency_data =
      s.latency_data ++ record { timestamp = now; latency = simulated; index = current_index } ∷ [];
  current_metrics = record s.current_metrics { latency = simulated };
}

-- `x || 0`
abbrev pub or_zero : Option Number → Number
or_zero none = whole 0
or_zero (some nan) = whole 0
or_zero (some (frac neg zero d)) = whole 0
or_zero (some x) = x

unfoldable pub on_test_complete : TestCompleteData → RunnerState → RunnerState
on_test_complete result s = record s {
  is_running_test = false;
  test_progress = whole 100;
  test_result = some result;
  current_metrics = record {
    latency = or_zero result.latency_ms;
    throughput = or_zero result.throughput_mbps;
    jitter = or_zero result.jitter_ms;
    packet_loss = or_zero result.packet_loss_percent;
  };
}

unfoldable pub on_error : RunnerState → RunnerState
on_error s = record s { is_running_test = false }

-- The `n`-th call of the listener.
unfoldable pub listen : Message → ℕ → RunnerState → RunnerState
listen test_started n s = on_test_started s
listen (test_progress_of progress current_index draw) n s =
    on_test_progress progress current_index (draw n) s
listen (test_complete result) n s = on_test_complete result s
listen error n s = on_error s

-- Every listener in the order in which they were added.
abbrev pub listen_all : Message → ℕ → RunnerState → RunnerState
listen_all m zero s = s
listen_all m (suc n) s = listen m n (listen_all m n s)

abbrev pub set_connected : Bool → World → World
set_connected b w = record w { state = record w.state { ws_connected = b } }

-- `initializeWebSocket` up to its `await`.
unfoldable pub initialize : World → World
initialize w = record w { service = Socket.connect w.access_token w.service }

-- What follows the `await`, once the promise of this call is resolved.
unfoldable pub initialized : World → World
initialized w =
    let v = set_connected true w in record v { service = Socket.add_listeners v.service }

unfoldable pub handle_test_start : TestData → World → World
handle_test_start d w =
    if not w.state.ws_connected
    then initialize w
    else record w { service = Socket.start_test (of_form d) w.service }

unfoldable pub close_result : RunnerState → RunnerState
close_result s = record s { test_result = none }

unfoldable pub run_again : RunnerState → RunnerState
run_again s = record s { test_result = none; latency_data = []; current_metrics = no_metrics }

-- What happens to the page. `connected i`, `connect_error i` and `disconnected i` are events of the
-- socket in place `i`, and `message i m` a message on it. `mount` and `unmount` are the effect and its
-- cleanup, which run in pairs under `StrictMode`; with `visit` the component is left and a new one
-- comes, over the same service. `stored` is what other parts of the front
-- end do to the access token in the storage.
pub data Event : Type 0 where
  mount unmount visit : Event
  connected connect_error disconnected : ℕ → Event
  message : ℕ → Message → Event
  submit : TestData → Event
  stored : Option Text → Event
  choose : Tab → Event
  close again : Event

unfoldable pub connect_of : ℕ → World → World
connect_of i w =
    let v = record w { service = Socket.on_connect i w.service } in
    if Socket.is_settled i w.service then v else initialized v

unfoldable pub connect_error_of : ℕ → World → World
connect_error_of i w =
    let v = record w { service = Socket.on_connect_error i w.service } in
    if Socket.is_settled i w.service then v else set_connected false v

unfoldable pub message_of : ℕ → Message → World → World
message_of i m w = record w { state = listen_all m (Socket.listeners_of i w.service) w.state }

-- The old component runs the cleanup.
unfoldable pub visited : World → World
visited w =
    initialize
      (record w { state = initial; service = Socket.abandon_all (Socket.disconnect w.service) })

abbrev pub when : Bool → (World → World) → World → World
when b f w = if b then f w else w

unfoldable pub step : Event → World → World
unfolding connect_of connect_error_of message_of visited
step mount w = initialize w
step unmount w = record w { service = Socket.disconnect w.service }
step visit w = visited w
step (connected i) w = when (Socket.is_open i w.service) (connect_of i) w
step (connect_error i) w = when (Socket.is_open i w.service) (connect_error_of i) w
step (disconnected i) w =
    when (Socket.is_open i w.service) (λ v. record v { service = Socket.on_disconnect v.service }) w
step (message i m) w = when (Socket.is_open i w.service) (message_of i m) w
step (submit d) w = handle_test_start d w
step (stored t) w = record w { access_token = t }
step (choose tab) w = record w { state = record w.state { active_tab = tab } }
step close w = record w { state = close_result w.state }
step again w = record w { state = run_again w.state }

abbrev pub run : List Event → World → World
run [] w = w
run (e ∷ es) w = run es (step e w)

abbrev pub first_world : World
first_world = record { access_token = none; service = Socket.new_service; state = initial }
