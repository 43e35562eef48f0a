-- ===== src/Trace/Bounds.antt =====
-- The bounds of what webClient/frontend/src/components/TraceTest.tsx sends.
use Prim.Native.String.{String}
use waddle_perf.Common.{
  ℕ, List, [], ◌∷◌, Bool, true, false, not, ◌&&◌, ◌≤◌, ◌≡◌, ◌⊎◌, inl, inr, refl, Option, none, some,
  arith, Bool-cases, if_intro, All, length,
}
use waddle_perf.Regex.{Text}
use waddle_perf.Validation.{string, validate_timeout, validate_target}
use waddle_perf.Validation.Sanitize.{IsNotControl, sanitize_string-clean}
use waddle_perf.Validation.Ranges.{whole, parse_int-whole, validate_timeout_iff}
use waddle_perf.Trace.{
  TraceType, http, tcp, icmp, TraceResult, TraceState, TraceData, TraceWorld, type_name, trace_data,
  add_listeners, same, set_is_running, start_test, handle_submit, on_test_complete, on_error, each,
}

-- A trace with a clean target, a timeout from 1 to 300, and no port where it is a traceroute.
pub record IsTrace (d : TraceData) : Type 0 where
  pub target : All IsNotControl d.target × (length d.target ≤ 255)
  pub timeout : (n : ℕ) × (d.timeout ≡ whole n) × (1 ≤ n) × (n ≤ 300)
  pub kind :
      ((d.test_type ≡ "traceroute") × (d.port ≡ none))
      ⊎ ((d.test_type ≡ "http_trace") ⊎ (d.test_type ≡ "tcp_trace"))

abbrev pub SentTraces : TraceWorld → Type 0
SentTraces w = All IsTrace w.sent

trace_data-kind :
    (session_id : Option String) (t : TraceType) (s : TraceState)
    → s.test_type ≡ t
    → ((type_name t ≡ "traceroute") × ((trace_data session_id s).port ≡ none))
      ⊎ ((type_name t ≡ "http_trace") ⊎ (type_name t ≡ "tcp_trace"))
unfolding trace_data
trace_data-kind session_id http s e = inr (inl refl)
trace_data-kind session_id tcp s e = inr (inr refl)
trace_data-kind session_id icmp s e = inl (refl, ground (arith, e))

trace_data-IsTrace :
    (session_id : Option String) (s : TraceState)
    → (validate_timeout (string s.timeout)).valid ≡ true
    → IsTrace (trace_data session_id s)
trace_data-IsTrace session_id s ok = record {
  target = unfold trace_data in sanitize_string-clean s.target 255;
  timeout =
      unfold trace_data in
      parse_int-whole 1 300 s.timeout ((validate_timeout_iff (string s.timeout)).0 ok);
  kind = unfold trace_data in trace_data-kind session_id s.test_type s refl;
}

pub add_listeners-sent : (w : TraceWorld) → SentTraces w → SentTraces (add_listeners w)
unfolding add_listeners
add_listeners-sent w h = if_intro SentTraces w.has_socket _ _ h h

set_is_running-sent : (b : Bool) (w : TraceWorld) → SentTraces w → SentTraces (set_is_running b w)
unfolding set_is_running
set_is_running-sent b w h =
    if_intro SentTraces (same b w.state.is_running) _ _ h
      (add_listeners-sent (record w { state = record w.state { is_running = b } }) h)

start_test-sent :
    (d : TraceData) (w : TraceWorld) → IsTrace d → SentTraces w → SentTraces (start_test d w)
unfolding start_test
start_test-sent d w ok h = if_intro SentTraces (w.has_socket && w.is_connected) _ _ (ok, h) h

pub handle_submit-sent :
    (url_hostname : Text → Option Text) (session_id : Option String) (is_authenticated : Bool)
    → (w : TraceWorld) → SentTraces w
    → SentTraces (handle_submit url_hostname session_id is_authenticated w)
unfolding handle_submit
handle_submit-sent url_hostname session_id is_authenticated w h =
    let timeout_result = validate_timeout (string w.state.timeout) in
    let v = record w { state = record w.state { validation_error = ""; result = none } } in
    let d = trace_data session_id v.state in
    elim (Bool-cases timeout_result.valid) [
      | inl ok ↦ if_intro SentTraces (not is_authenticated) _ _ h (
          if_intro SentTraces (not (validate_target url_hostname w.state.target).valid) _ _ h (
            if_intro SentTraces (not timeout_result.valid) _ _ h (
              set_is_running-sent true (start_test d v)
                (start_test-sent d v (trace_data-IsTrace session_id v.state ok) h))))
      | inr bad ↦ if_intro SentTraces (not is_authenticated) _ _ h (
          if_intro SentTraces (not (validate_target url_hostname w.state.target).valid) _ _ h
            (rw bad h))
    ]

pub on_test_complete-sent :
    (r : TraceResult) (b : Bool) (w : TraceWorld)
    → SentTraces w
    → SentTraces (on_test_complete r b w)
unfolding on_test_complete
on_test_complete-sent r true w h =
    set_is_running-sent false (record w { state = record w.state { result = some r } }) h
on_test_complete-sent r false w h = h

pub on_error-sent :
    (e : Option String) (b : Bool) (w : TraceWorld) → SentTraces w → SentTraces (on_error e b w)
unfolding on_error
on_error-sent e true w h =
    set_is_running-sent false (record w { state = record w.state { validation_error = _ } }) h
on_error-sent e false w h = h

pub each-sent :
    (f : Bool → TraceWorld → TraceWorld)
    → ((b : Bool) (w : TraceWorld) → SentTraces w → SentTraces (f b w))
    → (bs : List Bool) (w : TraceWorld) → SentTraces w
    → SentTraces (each f bs w)
each-sent f keep [] w h = h
each-sent f keep (b ∷ bs) w h = each-sent f keep bs (f b w) (keep b w h)
