-- ===== src/Runner/Tracing.antt =====
-- The form of webClient/frontend/src/components/TraceTest.tsx over the sockets of
-- webClient/frontend/src/services/websocket.ts that webClient/frontend/src/components/TestRunner.tsx
-- has opened. A step of the form is one of Trace on a world with what the service tells it; what
-- the step adds to that world is then handed to the service.
use Prim.Native.String.{String}
use text.Mathlib.Text.{◌==◌ as str_eq}
use waddle_perf.Common.{
  ℕ, List, [], ◌∷◌, Bool, false, not, ◌&&◌, ◌||◌, ◌==◌, if◌then◌else◌, Option, none, some,
}
use waddle_perf.Regex.{Text}
use waddle_perf.Trace.{
  TraceType, TraceResult, TraceState, TraceData, TraceWorld, handle_test_type_change,
  on_test_complete, on_error, each,
}
use waddle_perf.Trace
use waddle_perf.Trace.View.{Field, view, open_report, close_report}
use waddle_perf.Socket
use waddle_perf.Socket.{Service, Watcher}
use waddle_perf.Runner.{
  Packet, of_trace, Message, test_started, test_progress_of, test_complete, error,
}

-- The form in the tab: its state, and how often the tab was chosen or left before.
pub record Tracing : Type 0 where
  pub state : TraceState
  pub showing : ℕ

abbrev pub first_tracing : Tracing
first_tracing = record { state = Trace.initial; showing = 0 }

-- A click on the button of a type, a change of a field, and the buttons of the report.
pub data TraceEdit : Type 0 where
  trace_type : TraceType → TraceEdit
  target port timeout : Text → TraceEdit
  details hide : TraceEdit

abbrev pub enabled : String → List Field → Bool
enabled id [] = false
enabled id (f ∷ fs) = (str_eq f.id id && not f.disabled) || enabled id fs

-- The handler of the control, where it is on the page and enabled.
unfoldable pub trace_edit : TraceEdit → TraceState → TraceState
trace_edit (trace_type t) s = if s.is_running then s else handle_test_type_change t s
trace_edit (target x) s = if enabled "target" (view s).fields then record s { target = x } else s
trace_edit (port x) s = if enabled "port" (view s).fields then record s { port = x } else s
trace_edit (timeout x) s = if enabled "timeout" (view s).fields then record s { timeout = x } else s
trace_edit details s = elim s.result [ none ↦ s | some r ↦ open_report s ]
trace_edit hide s = close_report s

-- What the form sees of the service.
abbrev pub trace_world : TraceState → Service Packet → TraceWorld
trace_world s v = record {
  state = s;
  listeners = [];
  has_socket = Socket.is_there v.socket;
  is_connected = v.is_connected;
  sent = [];
}

-- The traces are sent, the last of the list first, and the listeners are added, the first one first.
abbrev pub send_all : List TraceData → Service Packet → Service Packet
send_all [] v = v
send_all (d ∷ ds) v = Socket.start_test (of_trace d) (send_all ds v)

abbrev pub watch_all : ℕ → List Bool → Service Packet → Service Packet
watch_all showing [] v = v
watch_all showing (b ∷ bs) v =
    watch_all showing bs (Socket.add_watcher (record { showing = showing; is_running = b }) v)

abbrev pub deliver : ℕ → TraceWorld → Service Packet → Service Packet
deliver showing w v = watch_all showing w.listeners (send_all w.sent v)

-- What the form reads of the data of a message.
pub record Reading : Type 0 where
  pub result : TraceResult
  pub error : Option String

unfoldable pub trace_listen : Message → Reading → Bool → TraceWorld → TraceWorld
trace_listen test_started x b w = w
trace_listen (test_progress_of progress current_index draw) x b w = w
trace_listen (test_complete result) x b w = on_test_complete x.result b w
trace_listen error x b w = on_error x.error b w

-- The listeners of the form that is shown; those of earlier showings change nothing any more.
abbrev pub of_showing : ℕ → List Watcher → List Bool
of_showing n [] = []
of_showing n (x ∷ xs) =
    let rest = of_showing n xs in if x.showing == n then x.is_running ∷ rest else rest

unfoldable pub on_message : Message → Reading → List Bool → TraceWorld → TraceWorld
on_message m x bs w = each (trace_listen m x) bs w
