-- ===== src/Runner/Page.antt =====
-- The tabs "Network Tests" and "Trace Tests" of webClient/frontend/src/components/TestRunner.tsx: the
-- form of webClient/frontend/src/components/TestForm.tsx in the page that passes it `isRunning` and
-- takes what it submits, and that of webClient/frontend/src/components/TraceTest.tsx, which sends
-- over the same sockets and listens on them. Whether a user is signed in, and the session that is
-- stored, come with the click that submits a trace.
use Prim.Native.String.{String}
use waddle_perf.Common.{
  ℕ, suc, List, [], ◌∷◌, Bool, true, false, not, ◌&&◌, if◌then◌else◌, Option, none, some,
}
use waddle_perf.Regex.{Text}
use waddle_perf.Form.{
  TestType, FormState, TestData, Submission, handle_test_type_change, handle_submit,
}
use waddle_perf.Form
use waddle_perf.Form.View.{view}
use waddle_perf.Form.Reach.{can_edit, offers}
use waddle_perf.Trace
use waddle_perf.Trace.{TraceWorld}
use waddle_perf.Trace.View
use waddle_perf.Socket
use waddle_perf.Runner.Tracing.{
  Tracing, first_tracing, TraceEdit, trace_edit, trace_world, deliver, Reading, of_showing,
  on_message,
}
use waddle_perf.Runner.{
  Message, Tab, tests, trace, World, Event, mount, unmount, visit, stored, connected, connect_error,
  disconnected, message, submit, choose, close, again, step, first_world,
}

-- A click on the button of a test type, a change of a control, or of the choice of the protocol.
pub data Edit : Type 0 where
  test_type : TestType → Edit
  target port timeout count dns_query protocol_detail : Text → Edit

-- The handler of the control, where it is on the page and enabled.
unfoldable pub edit : Edit → Bool → FormState → FormState
edit (test_type t) running f = if running then f else handle_test_type_change t f
edit (target x) running f =
    if can_edit "target" (view f running).controls then record f { target = x } else f
edit (port x) running f =
    if can_edit "port" (view f running).controls then record f { port = x } else f
edit (timeout x) running f =
    if can_edit "timeout" (view f running).controls then record f { timeout = x } else f
edit (count x) running f =
    if can_edit "count" (view f running).controls then record f { count = x } else f
edit (dns_query x) running f =
    if can_edit "dns-query" (view f running).controls then record f { dns_query = x } else f
edit (protocol_detail x) running f =
    if offers "protocol-detail" x (view f running).controls
    then record f { protocol_detail = x }
    else f

-- `form` and `trace` are those of their tabs when they are shown.
pub record Page : Type 0 where
  pub form : FormState
  pub trace : Tracing
  pub world : World

pub data PageEvent : Type 0 where
  change : Edit → PageEvent
  press : PageEvent
  change_trace : TraceEdit → PageEvent
  press_trace : (is_authenticated : Bool) → (session_id : Option String) → PageEvent
  arrive : ℕ → Message → Reading → PageEvent
  select : Tab → PageEvent
  other : Event → PageEvent

abbrev pub is_tests : Tab → Bool
is_tests tests = true
is_tests _ = false

abbrev pub shows_form : Page → Bool
shows_form p = is_tests p.world.state.active_tab

abbrev pub is_trace : Tab → Bool
is_trace trace = true
is_trace _ = false

abbrev pub shows_trace : Page → Bool
shows_trace p = is_trace p.world.state.active_tab

-- `onTestStart`, where the form calls it.
abbrev pub submitted : Submission → Page → Page
submitted (f, none) p = record p { form = f }
submitted (f, some d) p = record p { form = f; world = step (submit d) p.world }

abbrev pub can_press : Page → Bool
can_press p = shows_form p && not (view p.form p.world.state.is_running_test).submit_disabled

abbrev pub can_trace : Page → Bool
can_trace p = shows_trace p && not (Trace.View.view p.trace.state).submit_disabled

-- What happens to the page but for its forms.
abbrev pub on_world : Event → Page → Page
on_world e p = record p { world = step e p.world }

-- A step of the trace form.
abbrev pub on_trace : (TraceWorld → TraceWorld) → Page → Page
on_trace f p =
    let w = f (trace_world p.trace.state p.world.service) in
    record p {
      trace = record p.trace { state = w.state };
      world = record p.world { service = deliver p.trace.showing w p.world.service };
    }

-- A tab that is left forgets its form, and one that is chosen starts anew; the trace form adds its
-- listeners when it is shown.
abbrev pub leave_form : Tab → Page → Page
leave_form t p = record p { form = if shows_form p && is_tests t then p.form else Form.initial }

abbrev pub next_showing : Page → Page
next_showing p = record p {
  trace = record { state = Trace.initial; showing = suc p.trace.showing };
}

abbrev pub leave_trace : Tab → Page → Page
leave_trace t p =
    if shows_trace p && is_trace t
    then p
    else if is_trace t
    then on_trace Trace.add_listeners (next_showing p)
    else next_showing p

-- A message has the listeners of both.
abbrev pub message_at : ℕ → Message → Reading → Page → Page
message_at i m x p =
    let bs = of_showing p.trace.showing (Socket.watchers_of i p.world.service) in
    on_world (message i m) (on_trace (on_message m x bs) p)

module _ (url_hostname : Text → Option Text) where
  unfoldable pub page_step : PageEvent → Page → Page
  page_step (change e) p =
      if shows_form p then record p { form = edit e p.world.state.is_running_test p.form } else p
  page_step press p = if can_press p then submitted (handle_submit url_hostname p.form) p else p
  page_step (change_trace e) p =
      if shows_trace p
      then record p { trace = record p.trace { state = trace_edit e p.trace.state } }
      else p
  page_step (press_trace is_authenticated session_id) p =
      if can_trace p
      then on_trace (Trace.handle_submit url_hostname session_id is_authenticated) p
      else p
  page_step (arrive i m x) p = if Socket.is_open i p.world.service then message_at i m x p else p
  page_step (select t) p = on_world (choose t) (leave_trace t (leave_form t p))
  page_step (other (submit d)) p = p
  page_step (other (choose t)) p = p
  page_step (other (message i m)) p = p
  page_step (other mount) p = on_world mount p
  page_step (other unmount) p = on_world unmount p
  page_step (other visit) p = on_world visit (record (next_showing p) { form = Form.initial })
  page_step (other (connected i)) p = on_world (connected i) p
  page_step (other (connect_error i)) p = on_world (connect_error i) p
  page_step (other (disconnected i)) p = on_world (disconnected i) p
  page_step (other (stored t)) p = on_world (stored t) p
  page_step (other close) p = on_world close p
  page_step (other again) p = on_world again p

  abbrev pub page_run : List PageEvent → Page → Page
  page_run [] p = p
  page_run (e ∷ es) p = page_run es (page_step e p)

abbrev pub first_page : Page
first_page = record { form = Form.initial; trace = first_tracing; world = first_world }
