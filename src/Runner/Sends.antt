-- ===== src/Runner/Sends.antt =====
-- What the forms of webClient/frontend/src/components/TestForm.tsx and TraceTest.tsx send through the
-- page webClient/frontend/src/components/TestRunner.tsx.
use waddle_perf.Common.{
  List, [], ◌∷◌, Bool, true, false, ◌&&◌, ◌≡◌, refl, Option, none, some, if_intro, if◌then◌else◌,
}
use waddle_perf.Regex.{Text}
use waddle_perf.Form.{FormState, TestData, Submission, handle_submit}
use waddle_perf.Form.Submit.{handle_submit-IsWellFormed}
use waddle_perf.Form.Reach.{Step, Reach, start, next, Reach-PortFits}
use waddle_perf.Trace
use waddle_perf.Trace.{TraceWorld}
use waddle_perf.Trace.Bounds.{SentTraces, add_listeners-sent, handle_submit-sent}
use waddle_perf.Socket
use waddle_perf.Runner.{
  Tab, Event, mount, unmount, visit, stored, connected, connect_error, disconnected, message,
  submit, choose, close, again,
}
use waddle_perf.Runner.Tracing.{trace_world, of_showing, on_message}
use waddle_perf.Runner.Page.{
  Edit, test_type, target, port, timeout, count, dns_query, protocol_detail, edit, Page, PageEvent,
  press, change_trace, press_trace, arrive, select, other, shows_form, is_tests, is_trace,
  shows_trace, submitted, can_press, can_trace, on_world, on_trace, leave_form, next_showing,
  leave_trace, page_step, page_run, first_page,
}
use waddle_perf.Runner.Bounds.{
  Fits, ServiceFits, WorldFits, EventFits, step-Fits, send_all-Fits, watch_all-Fits,
  on_message-sent,
}

module _ (url_hostname : Text → Option Text) where
  guarded :
      (b : Bool) (f g : FormState)
      → (b ≡ true → Step url_hostname f g)
      → Reach url_hostname f
      → Reach url_hostname (if b then g else f)
  guarded true f g s r = next r (s refl)
  guarded false f g s r = r

  edit-Reach :
      (e : Edit) (running : Bool) (f : FormState)
      → Reach url_hostname f
      → Reach url_hostname (edit e running f)
  unfolding edit
  edit-Reach (test_type t) true f r = r
  edit-Reach (test_type t) false f r = next r (Step.change_type t)
  edit-Reach (target x) running f r = guarded _ f _ (Step.edit_target running x) r
  edit-Reach (port x) running f r = guarded _ f _ (Step.edit_port running x) r
  edit-Reach (timeout x) running f r = guarded _ f _ (λ h. Step.edit_timeout x) r
  edit-Reach (count x) running f r = guarded _ f _ (λ h. Step.edit_count x) r
  edit-Reach (dns_query x) running f r = guarded _ f _ (Step.edit_query running x) r
  edit-Reach (protocol_detail x) running f r = guarded _ f _ (Step.choose_protocol running x) r

  abbrev PageFits : Page → Type 0
  PageFits p = Reach url_hostname p.form × WorldFits p.world

  on_world-Fits : (e : Event) (p : Page) → EventFits e → PageFits p → PageFits (on_world e p)
  on_world-Fits e p fits (r, h) = (r, step-Fits e p.world fits h)

  submitted-Fits :
      (x : Submission) (p : Page)
      → Reach url_hostname x.0
      → ((d : TestData) → x.1 ≡ some d → Fits d)
      → WorldFits p.world
      → PageFits (submitted x p)
  submitted-Fits (f, none) p r fits h = (r, h)
  submitted-Fits (f, some d) p r fits h = (r, step-Fits (submit d) p.world (fits d refl) h)

  on_trace-Fits :
      (f : TraceWorld → TraceWorld) (p : Page)
      → ((w : TraceWorld) → SentTraces w → SentTraces (f w))
      → PageFits p
      → PageFits (on_trace f p)
  on_trace-Fits f p keep (r, h) =
      let w = trace_world p.trace.state p.world.service in
      (
        r,
        watch_all-Fits p.trace.showing (f w).listeners _ (send_all-Fits (f w).sent _ (keep w tt) h),
      )

  leave_form-Fits : (t : Tab) (p : Page) → PageFits p → PageFits (leave_form t p)
  leave_form-Fits t p (r, h) =
      (if_intro (Reach url_hostname) (shows_form p && is_tests t) _ _ r start, h)

  leave_trace-Fits : (t : Tab) (p : Page) → PageFits p → PageFits (leave_trace t p)
  leave_trace-Fits t p h = if_intro PageFits (shows_trace p && is_trace t) _ _ h (
      if_intro PageFits (is_trace t) _ _
        (on_trace-Fits Trace.add_listeners (next_showing p) add_listeners-sent h) h)

  press-Fits : (p : Page) → PageFits p → PageFits (page_step url_hostname press p)
  unfolding page_step
  press-Fits p (r, h) =
      if_intro PageFits (can_press p) _ _
        (submitted-Fits (handle_submit url_hostname p.form) p (next r Step.submit)
          (λ d sent. (
            handle_submit-IsWellFormed url_hostname p.form d sent,
            Reach-PortFits url_hostname p.form d r sent,
          ))
          h)
        (r, h)

  page_step-Fits : (e : PageEvent) (p : Page) → PageFits p → PageFits (page_step url_hostname e p)
  unfolding page_step
  page_step-Fits (PageEvent.change e) p (r, h) =
      if_intro PageFits (shows_form p) _ _ (edit-Reach e p.world.state.is_running_test p.form r, h)
        (r, h)
  page_step-Fits press p h = press-Fits p h
  page_step-Fits (change_trace e) p h = if_intro PageFits (shows_trace p) _ _ h h
  page_step-Fits (press_trace is_authenticated session_id) p h =
      if_intro PageFits (can_trace p) _ _
        (on_trace-Fits (Trace.handle_submit url_hostname session_id is_authenticated) p
          (handle_submit-sent url_hostname session_id is_authenticated) h)
        h
  page_step-Fits (arrive i m x) p h =
      let bs = of_showing p.trace.showing (Socket.watchers_of i p.world.service) in
      let heard = on_trace-Fits (on_message m x bs) p (on_message-sent m x bs) h in
      if_intro PageFits (Socket.is_open i p.world.service) _ _
        (on_world-Fits (message i m) (on_trace (on_message m x bs) p) tt heard) h
  page_step-Fits (select t) p h =
      on_world-Fits (choose t) (leave_trace t (leave_form t p)) tt
        (leave_trace-Fits t (leave_form t p) (leave_form-Fits t p h))
  page_step-Fits (other (submit d)) p h = h
  page_step-Fits (other (choose t)) p h = h
  page_step-Fits (other mount) p h = on_world-Fits mount p tt h
  page_step-Fits (other unmount) p h = on_world-Fits unmount p tt h
  page_step-Fits (other visit) p (r, h) = (start, step-Fits visit p.world tt h)
  page_step-Fits (other (connected i)) p h = on_world-Fits (connected i) p tt h
  page_step-Fits (other (connect_error i)) p h = on_world-Fits (connect_error i) p tt h
  page_step-Fits (other (disconnected i)) p h = on_world-Fits (disconnected i) p tt h
  page_step-Fits (other (message i m)) p h = h
  page_step-Fits (other (stored t)) p h = on_world-Fits (stored t) p tt h
  page_step-Fits (other close) p h = on_world-Fits close p tt h
  page_step-Fits (other again) p h = on_world-Fits again p tt h

  page_run-PageFits :
      (es : List PageEvent) (p : Page) → PageFits p → PageFits (page_run url_hostname es p)
  page_run-PageFits [] p h = h
  page_run-PageFits (e ∷ es) p h =
      page_run-PageFits es (page_step url_hostname e p) (page_step-Fits e p h)

  -- Whatever is typed, chosen and clicked on the page, and whatever the sockets do: all that the page
  -- has sent over any socket, also over one that is gone, is within bounds. A test of the form is
  -- within those of the form, and has the port 53 if it is a UDP test, and none if it is an ICMP test;
  -- a trace has a target of at most 255 code units without control characters, a timeout from 1 to
  -- 300, and no port if it is a traceroute.
  pub page_run-Fits :
      (es : List PageEvent) → ServiceFits (page_run url_hostname es first_page).world.service
  page_run-Fits es = (page_run-PageFits es first_page (start, tt)).1
