-- ===== src/Runner/Complete.antt =====
-- A test from its start to its result, as webClient/frontend/src/components/TestRunner.tsx shows it.
use waddle_perf.Common.{
  ℕ, zero, suc, List, [], ◌∷◌, ◌++◌, map, true, false, some, ◌≡◌, refl, sym, ap, ◌∙◌, append-nil,
  append_assoc,
}
use waddle_perf.Js.Number.{Number}
use waddle_perf.Socket
use waddle_perf.Socket.{Service, Sock, change, new_sock}
use waddle_perf.Runner.{
  TestCompleteData, LatencyDataPoint, RunnerState, World, Message, test_started, test_progress_of,
  test_complete, on_test_started, on_test_progress, on_test_complete, listen, listen_all, Event,
  message, message_of, step, run,
}

-- A progress message: its share, its index, and what each listener draws for it.
abbrev pub Progress : Type 0
Progress = Number × ℕ × (ℕ → ℕ × Number)

abbrev pub progress : ℕ → Progress → Event
progress i (share, index, draw) = message i (test_progress_of share index draw)

abbrev pub point : Progress → ℕ → LatencyDataPoint
point (share, index, draw) n = record {
  timestamp = (draw n).0;
  latency = (draw n).1;
  index = index;
}

-- The points of `n` listeners for a message, and for several.
abbrev pub points : ℕ → Progress → List LatencyDataPoint
points zero p = []
points (suc n) p = points n p ++ point p n ∷ []

abbrev pub all_points : ℕ → List Progress → List LatencyDataPoint
all_points n [] = []
all_points n (p ∷ ps) = points n p ++ all_points n ps

listen_all-points :
    (n : ℕ) (p : Progress) (s : RunnerState)
    → (listen_all (test_progress_of p.0 p.1 p.2) n s).latency_data ≡ s.latency_data ++ points n p
unfolding listen on_test_progress
listen_all-points zero p s = sym (append-nil s.latency_data)
listen_all-points (suc n) p s =
    ap (λ ls. ls ++ point p n ∷ []) (listen_all-points n p s)
    ∙ append_assoc s.latency_data (points n p) (point p n ∷ [])

listen_all_complete :
    (n : ℕ) (result : TestCompleteData) (s : RunnerState)
    → (listen_all (test_complete result) n s).latency_data ≡ s.latency_data
unfolding listen on_test_complete
listen_all_complete zero result s = refl
listen_all_complete (suc n) result s = listen_all_complete n result s

abbrev pub IsDone : TestCompleteData → RunnerState → Type 0
IsDone result s = (s.test_result ≡ some result) × (s.is_running_test ≡ false)

pub listen_all-IsDone :
    (n k : ℕ) (result : TestCompleteData) (s : RunnerState)
    → n ≡ suc k
    → IsDone result (listen_all (test_complete result) n s)
unfolding listen on_test_complete
listen_all-IsDone zero k result s e = cc
listen_all-IsDone (suc n) k result s e = (refl, refl)

listen_all-started :
    (n k : ℕ) (s : RunnerState) → n ≡ suc k → (listen_all test_started n s).latency_data ≡ []
unfolding listen on_test_started
listen_all-started n k s e = rw e refl

-- The world with another page.
abbrev pub with_state : World → RunnerState → World
with_state w s = record w { state = s }

module _ (i n : ℕ) (w : World) (open_i : Socket.is_open i w.service ≡ true)
    (count : Socket.listeners_of i w.service ≡ n) where
  step-message :
      (m : Message) (s : RunnerState)
      → step (message i m) (with_state w s) ≡ with_state w (listen_all m n s)
  unfolding step message_of
  step-message m s = rw (open_i, count) refl

  run-progress :
      (ps : List Progress) (rest : List Event) (s : RunnerState)
      → (t : RunnerState) × (run (map (progress i) ps ++ rest) (with_state w s)
          ≡ run rest (with_state w t))
        × (t.latency_data ≡ s.latency_data ++ all_points n ps)
  run-progress [] rest s = (s, refl, sym (append-nil s.latency_data))
  run-progress (p ∷ ps) rest s =
      let m = test_progress_of p.0 p.1 p.2 in
      let (t, ran, data_) = run-progress ps rest (listen_all m n s) in
      (
        t,
        ap (run (map (progress i) ps ++ rest)) (step-message m s) ∙ ran,
        data_
            ∙ ap (λ ls. ls ++ all_points n ps) (listen_all-points n p s)
            ∙ append_assoc s.latency_data (points n p) (all_points n ps),
      )

  -- A test that runs over an open socket whose listeners were added `n` times, once at least: when
  -- it starts, makes progress and completes, the page shows its result and that nothing runs, with
  -- one point for each message and each time that the listeners were added, in the order in which
  -- they came, and the connection is as before.
  pub run_complete :
      (k : ℕ)
      → n ≡ suc k
      → (ps : List Progress) (result : TestCompleteData)
      → (t : RunnerState) × (run
            (message i test_started
              ∷ (map (progress i) ps ++ message i (test_complete result) ∷ []))
            w
          ≡ with_state w t)
        × (t.latency_data ≡ all_points n ps)
        × IsDone result t
  unfolding listen on_test_complete on_test_started
  run_complete k e ps result =
      let begun = listen_all test_started n w.state in
      let done = message i (test_complete result) ∷ [] in
      let (t, ran, shown) = run-progress ps done begun in
      (
        listen_all (test_complete result) n t,
        ap (run (map (progress i) ps ++ done)) (step-message test_started w.state)
            ∙ ran
            ∙ step-message (test_complete result) t,
        listen_all_complete n result t
            ∙ shown
            ∙ ap (λ ls. ls ++ all_points n ps) (listen_all-started n k w.state e),
        listen_all-IsDone n k result t e,
      )
