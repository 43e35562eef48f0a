-- ===== src/Runner/Laws.antt =====
-- What holds of webClient/frontend/src/components/TestRunner.tsx in every order of events: results,
-- and what becomes of a submission.
use waddle_perf.Common.{
  ℕ, zero, suc, List, [], ◌∷◌, ◌++◌, map, Bool, true, false, not, ◌&&◌, Option, none, some, ◌≡◌,
  refl, sym, ap, ◌∙◌, arith, if_intro, append-nil, append_assoc,
}
use waddle_perf.Form.{TestData}
use waddle_perf.Socket
use waddle_perf.Socket.{Service, Sock, change, new_sock, sent_token}
use waddle_perf.Runner.{
  TestCompleteData, RunnerState, World, Message, test_started, test_progress_of, test_complete,
  error, on_test_started, on_test_progress, on_test_complete, on_error, listen, listen_all, visited,
  initialize, initialized, handle_test_start, close_result, run_again, Event, mount, unmount, visit,
  stored, connected, connect_error, disconnected, message, submit, choose, close, again, connect_of,
  connect_error_of, message_of, step, run, first_world,
}

abbrev pub has_result : Option TestCompleteData → Bool
has_result none = false
has_result (some result) = true

-- It is not so that a test is running and a result is there.
abbrev pub IsExclusive : RunnerState → Type 0
IsExclusive s = (s.is_running_test && has_result s.test_result) ≡ false

listen-IsExclusive :
    (m : Message) (n : ℕ) (s : RunnerState) → IsExclusive s → IsExclusive (listen m n s)
unfolding listen on_test_started on_test_progress on_test_complete on_error
listen-IsExclusive test_started n s h = refl
listen-IsExclusive (test_progress_of progress current_index draw) n s h = h
listen-IsExclusive (test_complete result) n s h = refl
listen-IsExclusive error n s h = refl

listen_all-IsExclusive :
    (m : Message) (n : ℕ) (s : RunnerState) → IsExclusive s → IsExclusive (listen_all m n s)
listen_all-IsExclusive m zero s h = h
listen_all-IsExclusive m (suc n) s h =
    listen-IsExclusive m n (listen_all m n s) (listen_all-IsExclusive m n s h)

abbrev pub IsFine : World → Type 0
IsFine w = IsExclusive w.state

step-IsFine : (e : Event) (w : World) → IsFine w → IsFine (step e w)
unfolding step initialize initialized connect_of connect_error_of message_of handle_test_start
    close_result run_again visited
step-IsFine mount w h = h
step-IsFine unmount w h = h
step-IsFine visit w h = refl
step-IsFine (connected i) w h =
    if_intro IsFine (Socket.is_open i w.service) _ _
      (if_intro IsFine (Socket.is_settled i w.service) _ _ h h) h
step-IsFine (connect_error i) w h =
    if_intro IsFine (Socket.is_open i w.service) _ _
      (if_intro IsFine (Socket.is_settled i w.service) _ _ h h) h
step-IsFine (disconnected i) w h = if_intro IsFine (Socket.is_open i w.service) _ _ h h
step-IsFine (message i m) w h =
    if_intro IsFine (Socket.is_open i w.service) _ _
      (listen_all-IsExclusive m (Socket.listeners_of i w.service) w.state h) h
step-IsFine (submit d) w h = if_intro IsFine (not w.state.ws_connected) _ _ h h
step-IsFine (stored t) w h = h
step-IsFine (choose tab) w h = h
step-IsFine close w h = ground arith
step-IsFine again w h = ground arith

run-IsFine : (es : List Event) (w : World) → IsFine w → IsFine (run es w)
run-IsFine [] w h = h
run-IsFine (e ∷ es) w h = run-IsFine es (step e w) (step-IsFine e w h)

-- In whatever order messages, connections and clicks come, a result is never kept while a test is
-- shown as running.
run-IsExclusive : (es : List Event) → IsExclusive (run es first_world).state
run-IsExclusive es = run-IsFine es first_world refl

run-drops :
    (w : World)
    → w.state.ws_connected ≡ true
    → w.service.is_connected ≡ false
    → (ds : List TestData) → run (map submit ds) w ≡ w
unfolding step handle_test_start Socket.start_test
run-drops w shown off [] = refl
run-drops w shown off (d ∷ ds) =
    ap (run (map submit ds)) (dropped w shown off) ∙ run-drops w shown off ds
  where
    dropped :
        (v : World)
        → v.state.ws_connected ≡ true
        → v.service.is_connected ≡ false
        → handle_test_start d v ≡ v
    dropped v e f = ground arith

-- When a runner that shows "Connected" hears that an open socket has disconnected, it goes on
-- to show "Connected", and however often a test is submitted then, nothing is sent and no
-- connection is tried: nothing changes at all.
pub disconnected-drops :
    (i : ℕ) (w : World) (ds : List TestData)
    → w.state.ws_connected ≡ true
    → Socket.is_open i w.service ≡ true
    → ((step (disconnected i) w).state.ws_connected ≡ true)
      × (run (map submit ds) (step (disconnected i) w) ≡ step (disconnected i) w)
unfolding step Socket.on_disconnect
disconnected-drops i w ds shown open_i =
    rw open_i
      (shown, run-drops (record w { service = Socket.on_disconnect w.service }) shown refl ds)

handle_test_start-initialize :
    (d : TestData) (w : World) → w.state.ws_connected ≡ false → handle_test_start d w ≡ initialize w
unfolding handle_test_start
handle_test_start-initialize d w off = ground arith

-- While the runner is not connected, each submission opens one more socket, beside those that are
-- there, and is lost: no socket has sent it, and the page is as it was.
run-opens :
    (w : World) (ds : List TestData)
    → w.state.ws_connected ≡ false
    → ((run (map submit ds) w).service.sockets
        ≡ w.service.sockets ++ map (λ d. new_sock (sent_token w.access_token)) ds)
      × ((run (map submit ds) w).state ≡ w.state)
unfolding step initialize Socket.connect
run-opens w [] off = (sym (append-nil w.service.sockets), refl)
run-opens w (d ∷ ds) off =
    let (opened, same) = run-opens (initialize w) ds off in
    let after = λ (v : World). run (map submit ds) v in
    (
      ap (λ v. (after v).service.sockets) (handle_test_start-initialize d w off)
          ∙ opened
          ∙ append_assoc w.service.sockets (new_sock (sent_token w.access_token) ∷ [])
              (map (λ d. new_sock (sent_token w.access_token)) ds),
      ap (λ v. (after v).state) (handle_test_start-initialize d w off) ∙ same,
    )
