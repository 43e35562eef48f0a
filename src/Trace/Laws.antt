-- ===== src/Trace/Laws.antt =====
-- What becomes of a submission of webClient/frontend/src/components/TraceTest.tsx, and of the
-- messages behind it.
use Prim.Native.String.{String}
use waddle_perf.Common.{
  List, [], ◌∷◌, ◌++◌, Bool, true, false, ◌||◌, Option, none, some, ◌≡◌, refl, ap, ◌∙◌, ◌↔◌, inl,
  inr, arith, Bool-cases,
}
use waddle_perf.Regex.{Text}
use waddle_perf.Js.Strings.{is_empty}
use waddle_perf.Js.Number.{parse_int}
use waddle_perf.Validation.{string, validate_target, validate_timeout}
use waddle_perf.Trace.{
  TraceResult, TraceData, TraceWorld, add_listeners, set_is_running, is_icmp, trace_data,
  start_test, handle_submit, on_test_complete, each,
}

module _ (url_hostname : Text → Option Text) (session_id : Option String) where
  -- What the checks of a submission ask for.
  pub record IsAccepted (is_authenticated : Bool) (w : TraceWorld) : Type 0 where
    pub signed_in : is_authenticated ≡ true
    pub target : (validate_target url_hostname w.state.target).valid ≡ true
    pub timeout : (validate_timeout (string w.state.timeout)).valid ≡ true

  -- The world when the fields are accepted, before and behind `setIsRunning`.
  abbrev pub submitted : TraceWorld → TraceWorld
  submitted w =
      let v = record w { state = record w.state { validation_error = ""; result = none } } in
      start_test (trace_data session_id v.state) v

  abbrev pub accepted : TraceWorld → TraceWorld
  accepted w = set_is_running true (submitted w)

  handle_submit-accepted :
      (is_authenticated : Bool) (w : TraceWorld)
      → IsAccepted is_authenticated w
      → handle_submit url_hostname session_id is_authenticated w ≡ accepted w
  unfolding handle_submit
  handle_submit-accepted is_authenticated w h = ground (arith, h.signed_in, h.target, h.timeout)

  set_is_running-on : (w : TraceWorld) → (set_is_running true w).state.is_running ≡ true
  unfolding set_is_running add_listeners
  set_is_running-on w = elim (Bool-cases w.state.is_running) [
    | inl e ↦ ground arith
    | inr e ↦ ground arith
  ]

  handle_submit_sound :
      (is_authenticated : Bool) (w : TraceWorld)
      → w.state.is_running ≡ false
      → (handle_submit url_hostname session_id is_authenticated w).state.is_running ≡ true
      → IsAccepted is_authenticated w
  unfolding handle_submit
  handle_submit_sound is_authenticated w idle h = record {
    signed_in = ground (arith, idle, h);
    target = ground (arith, idle, h);
    timeout = ground (arith, idle, h);
  }

  -- From a form that is not running, a submission starts a trace exactly when the user is signed in
  -- and the target and the timeout are accepted.
  handle_submit_running_iff :
      (is_authenticated : Bool) (w : TraceWorld)
      → w.state.is_running ≡ false
      → ((handle_submit url_hostname session_id is_authenticated w).state.is_running ≡ true)
        ↔ IsAccepted is_authenticated w
  handle_submit_running_iff is_authenticated w idle = (
    handle_submit_sound is_authenticated w idle,
    λ h.
        ap (λ v. v.state.is_running) (handle_submit-accepted is_authenticated w h)
        ∙ set_is_running-on (submitted w),
  )

  -- An accepted submission while the service is not connected: nothing is sent, no error is shown,
  -- and the form says that it is running.
  handle_submit-stuck :
      (is_authenticated : Bool) (w : TraceWorld)
      → w.is_connected ≡ false
      → IsAccepted is_authenticated w
      → ((handle_submit url_hostname session_id is_authenticated w).sent ≡ w.sent)
        × ((handle_submit url_hostname session_id is_authenticated w).state.is_running ≡ true)
        × ((handle_submit url_hostname session_id is_authenticated w).state.validation_error ≡ "")
  unfolding set_is_running add_listeners start_test
  handle_submit-stuck is_authenticated w off h =
      rw (handle_submit-accepted is_authenticated w h)
        (ground (arith, off), set_is_running-on (submitted w), ground (arith, off))

  -- An accepted submission over a connected socket sends the data built from the fields: for HTTP
  -- and TCP the port is whatever `parseInt` makes of the field, with no bound.
  handle_submit-port :
      (is_authenticated : Bool) (w : TraceWorld)
      → w.has_socket ≡ true
      → w.is_connected ≡ true
      → IsAccepted is_authenticated w
      → is_icmp w.state.test_type ≡ false
      → is_empty w.state.port ≡ false
      → (d : TraceData) × ((handle_submit url_hostname session_id is_authenticated w).sent
          ≡ d ∷ w.sent)
        × (d.port ≡ some (parse_int w.state.port))
  unfolding set_is_running add_listeners start_test trace_data
  handle_submit-port is_authenticated w there on h other full =
      rw (handle_submit-accepted is_authenticated w h)
        (trace_data session_id w.state, ground (arith, there, on), ground (arith, other, full))

abbrev pub has_true : List Bool → Bool
has_true [] = false
has_true (b ∷ bs) = b || has_true bs

pub has_true-append : (bs cs : List Bool) → has_true bs ≡ true → has_true (bs ++ cs) ≡ true
has_true-append [] cs h = cc
has_true-append (true ∷ bs) cs h = refl
has_true-append (false ∷ bs) cs h = has_true-append bs cs h

-- The page shows `r`, and that nothing runs.
abbrev pub Shows : TraceResult → TraceWorld → Type 0
Shows r w = (w.state.result ≡ some r) × (w.state.is_running ≡ false)

on_test_complete-Shows : (r : TraceResult) (w : TraceWorld) → Shows r (on_test_complete r true w)
unfolding on_test_complete set_is_running add_listeners
on_test_complete-Shows r w = (ground arith, ground arith)

each-kept :
    (r : TraceResult) (bs : List Bool) (w : TraceWorld)
    → Shows r w
    → Shows r (each (on_test_complete r) bs w)
unfolding on_test_complete
each-kept r [] w h = h
each-kept r (false ∷ bs) w h = each-kept r bs w h
each-kept r (true ∷ bs) w h =
    each-kept r bs (on_test_complete r true w) (on_test_complete-Shows r w)

pub each-Shows :
    (r : TraceResult) (bs : List Bool) (w : TraceWorld)
    → has_true bs ≡ true
    → Shows r (each (on_test_complete r) bs w)
unfolding on_test_complete
each-Shows r [] w h = cc
each-Shows r (false ∷ bs) w h = each-Shows r bs w h
each-Shows r (true ∷ bs) w h =
    each-kept r bs (on_test_complete r true w) (on_test_complete-Shows r w)
