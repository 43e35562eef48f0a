-- ===== src/Runner/Left.antt =====
-- What becomes of a socket that webClient/frontend/src/services/websocket.ts has disconnected, under
-- everything that happens on the page of webClient/frontend/src/components/TestRunner.tsx with its
-- forms.
use waddle_perf.Common.{
  ℕ, List, [], ◌∷◌, Bool, true, ◌&&◌, ◌≡◌, refl, Option, none, some, at, if_intro, IfSome,
}
use waddle_perf.Regex.{Text}
use waddle_perf.Form.{Submission, handle_submit}
use waddle_perf.Trace
use waddle_perf.Trace.{TraceData, TraceWorld}
use waddle_perf.Socket
use waddle_perf.Socket.{Sock, Service, Watcher}
use waddle_perf.Runner.{
  Packet, of_trace, Tab, Event, mount, unmount, visit, stored, connected, connect_error,
  disconnected, message, submit, choose, close, again,
}
use waddle_perf.Runner.Tracing.{trace_world, send_all, watch_all, of_showing, on_message}
use waddle_perf.Runner.Page.{
  Page, PageEvent, press, change_trace, press_trace, arrive, select, other, shows_form, is_trace,
  shows_trace, submitted, can_press, can_trace, on_world, on_trace, leave_form, next_showing,
  leave_trace, page_step, page_run, first_page,
}
use waddle_perf.Runner.Closed.{
  open_at, Fine, WorldIsFine, change_current-Fine, start_test-Fine, step-Fine,
}

module _ (old : List (Sock Packet)) where
  send_all-Fine : (ds : List TraceData) (v : Service Packet) → Fine old v → Fine old (send_all ds v)
  send_all-Fine [] v h = h
  send_all-Fine (d ∷ ds) v h =
      start_test-Fine old (of_trace d) (send_all ds v) (send_all-Fine ds v h)

  add_watcher-Fine :
      (x : Watcher) (v : Service Packet) → Fine old v → Fine old (Socket.add_watcher x v)
  unfolding Socket.add_watcher
  add_watcher-Fine x v h = change_current-Fine old _ (λ k. refl) v.socket v h.0 h

  watch_all-Fine :
      (showing : ℕ) (bs : List Bool) (v : Service Packet)
      → Fine old v
      → Fine old (watch_all showing bs v)
  watch_all-Fine showing [] v h = h
  watch_all-Fine showing (b ∷ bs) v h =
      watch_all-Fine showing bs _
        (add_watcher-Fine (record { showing = showing; is_running = b }) v h)

  abbrev PageIsFine : Page → Type 0
  PageIsFine p = WorldIsFine old p.world

  on_world-Fine : (e : Event) (p : Page) → PageIsFine p → PageIsFine (on_world e p)
  on_world-Fine e p h = step-Fine old e p.world h

  on_trace-Fine :
      (f : TraceWorld → TraceWorld) (p : Page) → PageIsFine p → PageIsFine (on_trace f p)
  on_trace-Fine f p h =
      let w = f (trace_world p.trace.state p.world.service) in
      watch_all-Fine p.trace.showing w.listeners _ (send_all-Fine w.sent p.world.service h)

  submitted-Fine : (x : Submission) (p : Page) → PageIsFine p → PageIsFine (submitted x p)
  submitted-Fine (f, none) p h = h
  submitted-Fine (f, some d) p h = step-Fine old (submit d) p.world h

  leave_trace-Fine : (t : Tab) (p : Page) → PageIsFine p → PageIsFine (leave_trace t p)
  leave_trace-Fine t p h = if_intro PageIsFine (shows_trace p && is_trace t) _ _ h (
      if_intro PageIsFine (is_trace t) _ _ (on_trace-Fine Trace.add_listeners (next_showing p) h) h)

  module _ (url_hostname : Text → Option Text) where
    page_step-Fine :
        (e : PageEvent) (p : Page) → PageIsFine p → PageIsFine (page_step url_hostname e p)
    unfolding page_step
    page_step-Fine (PageEvent.change e) p h = if_intro PageIsFine (shows_form p) _ _ h h
    page_step-Fine press p h =
        if_intro PageIsFine (can_press p) _ _
          (submitted-Fine (handle_submit url_hostname p.form) p h) h
    page_step-Fine (change_trace e) p h = if_intro PageIsFine (shows_trace p) _ _ h h
    page_step-Fine (press_trace is_authenticated session_id) p h =
        if_intro PageIsFine (can_trace p) _ _
          (on_trace-Fine (Trace.handle_submit url_hostname session_id is_authenticated) p h) h
    page_step-Fine (arrive i m x) p h =
        let bs = of_showing p.trace.showing (Socket.watchers_of i p.world.service) in
        let heard = on_trace-Fine (on_message m x bs) p h in
        if_intro PageIsFine (Socket.is_open i p.world.service) _ _
          (on_world-Fine (message i m) (on_trace (on_message m x bs) p) heard) h
    page_step-Fine (select t) p h =
        let q = leave_form t p in
        on_world-Fine (choose t) (leave_trace t q) (leave_trace-Fine t q h)
    page_step-Fine (other (submit d)) p h = h
    page_step-Fine (other (choose t)) p h = h
    page_step-Fine (other (message i m)) p h = h
    page_step-Fine (other mount) p h = on_world-Fine mount p h
    page_step-Fine (other unmount) p h = on_world-Fine unmount p h
    page_step-Fine (other visit) p h = on_world-Fine visit (next_showing p) h
    page_step-Fine (other (connected i)) p h = on_world-Fine (connected i) p h
    page_step-Fine (other (connect_error i)) p h = on_world-Fine (connect_error i) p h
    page_step-Fine (other (disconnected i)) p h = on_world-Fine (disconnected i) p h
    page_step-Fine (other (stored t)) p h = on_world-Fine (stored t) p h
    page_step-Fine (other close) p h = on_world-Fine close p h
    page_step-Fine (other again) p h = on_world-Fine again p h

    page_run-Fine :
        (es : List PageEvent) (p : Page) → PageIsFine p → PageIsFine (page_run url_hostname es p)
    page_run-Fine [] p h = h
    page_run-Fine (e ∷ es) p h =
        page_run-Fine es (page_step url_hostname e p) (page_step-Fine e p h)

module _ (url_hostname : Text → Option Text) where
  -- The page behind some events.
  abbrev pub reached : List PageEvent → Page
  reached es = page_run url_hostname es first_page

  start-Fine : Fine [] first_page.world.service
  start-Fine = (tt, λ i k e closed. cc)

  -- In whatever order mounts, unmounts, connections, messages, tabs and submissions of tests and of
  -- traces come: the current socket is open, and once a socket is disconnected, nothing is sent over
  -- it, no listener is added to it and it is never opened again: it stays as it was, whatever comes
  -- later.
  pub page_run-IsClosed :
      (es fs : List PageEvent) (i : ℕ) (k : Sock Packet)
      → at i (reached es).world.service.sockets ≡ some k
      → k.closed ≡ true
      → IfSome
          (λ j. open_at j (reached es).world.service.sockets ≡ true)
          (reached es).world.service.socket
        × (at i (page_run url_hostname fs (reached es)).world.service.sockets ≡ some k)
  page_run-IsClosed es fs i k there closed =
      let p = reached es in
      let before = page_run-Fine [] url_hostname es first_page start-Fine in
      let after =
        page_run-Fine p.world.service.sockets url_hostname fs p (before.0, λ i k e closed. e) in
      (before.0, after.1 i k there closed)
