-- ===== src/Tests/Submissions.antt =====
-- Runs of the form of webClient/frontend/src/components/TestForm.tsx in the page of
-- webClient/frontend/src/components/TestRunner.tsx at fixed inputs.
use waddle_perf.Common.{
  at, IfSome, List, [], ◌∷◌, ◌++◌, true, false, Option, none, some, ◌≡◌, refl, ◌⊎◌,
}
use waddle_perf.Regex.{Text}
use waddle_perf.Js.Strings.{codes, trim, is_space}
use waddle_perf.Form.View.{view}
use waddle_perf.Socket
use waddle_perf.Socket.{Sock}
use waddle_perf.Runner.{
  TestCompleteData, Packet, World, mount, visit, connected, submit, tests, trace, step, run,
  first_world,
}
use waddle_perf.Runner.Closed.{open_at}
use waddle_perf.Runner.Left.{reached, page_run-IsClosed}
use waddle_perf.Runner.Tracing.{TraceEdit, Reading}
use waddle_perf.Runner.Page.{
  target, edit, Page, PageEvent, change, press, change_trace, press_trace, select, other, page_step,
  page_run, first_page,
}
use waddle_perf.Runner.Bounds.{ServiceFits}
use waddle_perf.Runner.Sends.{page_run-Fits}
use waddle_perf.Trace
use waddle_perf.Runner.Shared.{IsShared, done, arrive-IsShared}
use waddle_perf.Runner.Press.{IsOnline, GoesOut, IsHeldBack, press-Outcome}

abbrev browser : Text → Option Text
browser text = none

-- A page with a connection and a target in its form.
abbrev ready : List PageEvent
ready = other mount ∷ other (connected 0) ∷ select tests ∷ change (target (codes "a.io")) ∷ []

abbrev ready_page : Page
ready_page = page_run browser ready first_page

abbrev open_sock : Sock Packet
open_sock = record {
  token = none;
  settled = true;
  listeners = 1;
  watchers = [];
  sent = [];
  closed = false;
}

-- A test is sent, and then a trace.
abbrev two_tabs : List PageEvent
two_tabs =
    press
    ∷ select trace
    ∷ change_trace (TraceEdit.target (codes "a.io"))
    ∷ press_trace true none
    ∷ []

page_run-Fits_example : ServiceFits (page_run browser two_tabs ready_page).world.service
page_run-Fits_example = page_run-Fits browser (ready ++ two_tabs)

ready_page-IsOnline : IsOnline ready_page.world 0 open_sock
unfolding page_step step waddle_perf.Runner.initialize Socket.connect waddle_perf.Runner.initialized
    Socket.add_listeners Socket.on_connect waddle_perf.Runner.connect_of edit view
ready_page-IsOnline = record { shown = refl; current = refl; connected = refl; there = refl }

press-Outcome_example : GoesOut browser ready_page 0 open_sock ⊎ IsHeldBack browser ready_page
unfolding page_step step waddle_perf.Runner.initialize Socket.connect waddle_perf.Runner.initialized
    Socket.add_listeners Socket.on_connect waddle_perf.Runner.connect_of edit view trim is_space
press-Outcome_example = press-Outcome browser ready_page 0 open_sock refl ready_page-IsOnline

-- A page that was left and is visited once more, and what comes behind it: a test and a trace.
abbrev left : List PageEvent
left = other mount ∷ other (connected 0) ∷ other visit ∷ []

abbrev later : List PageEvent
later = other (connected 1) ∷ select tests ∷ change (target (codes "a.io")) ∷ two_tabs

abbrev closed_sock : Sock Packet
closed_sock = record open_sock { closed = true }

page_run-IsClosed_example :
    IfSome
      (λ j. open_at j (reached browser left).world.service.sockets ≡ true)
      (reached browser left).world.service.socket
    × (at 0 (page_run browser later (reached browser left)).world.service.sockets
        ≡ some closed_sock)
unfolding page_step step waddle_perf.Runner.initialize Socket.connect waddle_perf.Runner.initialized
    Socket.add_listeners Socket.on_connect waddle_perf.Runner.connect_of Socket.disconnect
    waddle_perf.Runner.visited Socket.abandon Socket.abandon_all
page_run-IsClosed_example = page_run-IsClosed browser left later 0 closed_sock refl refl

-- The trace form while a trace runs: its listeners are those of its first render and of the submission.
abbrev traced : Sock Packet
traced = record open_sock {
  watchers =
      record { showing = 1; is_running = false } ∷ record { showing = 1; is_running = true } ∷ [];
}

abbrev tracing_page : Page
tracing_page = record first_page {
  trace = record { state = record Trace.initial { is_running = true }; showing = 1 };
  world = record first_page.world {
    service = record { sockets = traced ∷ []; socket = some 0; is_connected = true };
  };
}

-- A test of the test form completes.
abbrev of_test : TestCompleteData
of_test = record {
  test_type = "http";
  target_host = "a.io";
  target_ip = "10.0.0.1";
  latency_ms = none;
  throughput_mbps = none;
  jitter_ms = none;
  packet_loss_percent = none;
  raw_results = none;
  success = true;
  error = none;
}

abbrev as_trace : Reading
as_trace = record {
  result = record {
    test_type = "http";
    target = "a.io";
    hops = none;
    latency_ms = none;
    success = true;
    error = none;
  };
  error = none;
}

arrive-IsShared_example :
    IsShared 0 0 of_test as_trace.result (done browser 0 of_test as_trace tracing_page)
arrive-IsShared_example =
    arrive-IsShared browser 0 of_test as_trace 0 tracing_page
      (traced, refl, record { is_open = refl; listened = refl; traced = refl })
