-- ===== src/Tests/Runs.antt =====
-- Runs of webClient/frontend/src/components/TestRunner.tsx at fixed inputs.
use waddle_perf.Common.{◌++◌, [], ◌∷◌, map, true, none, some, ◌≡◌, refl}
use waddle_perf.Form
use waddle_perf.Form.{TestData, test_data}
use waddle_perf.Socket
use waddle_perf.Socket.{new_sock}
use waddle_perf.Runner.{
  TestCompleteData, RunnerState, World, whole, first_world, Event, mount, connected, connect_error,
  disconnected, message, submit, close, test_started, test_complete, test_progress_of, step, run,
}
use waddle_perf.Runner.Laws.{disconnected-drops}
use waddle_perf.Runner.Complete.{Progress, progress, all_points, with_state, IsDone, run_complete}

abbrev wanted : TestData
wanted = test_data Form.initial

abbrev measured : TestCompleteData
measured = record {
  test_type = "http";
  target_host = "a.io";
  target_ip = "10.0.0.1";
  latency_ms = some (whole 12);
  throughput_mbps = none;
  jitter_ms = none;
  packet_loss_percent = none;
  raw_results = none;
  success = true;
  error = none;
}

-- A page whose connection stands.
abbrev live : World
live = run (mount ∷ connected 0 ∷ []) first_world

disconnected-drops_example :
    ((step (disconnected 0) live).state.ws_connected ≡ true)
    × (run (map submit (wanted ∷ wanted ∷ [])) (step (disconnected 0) live)
        ≡ step (disconnected 0) live)
unfolding step waddle_perf.Runner.initialize Socket.connect waddle_perf.Runner.initialized
    Socket.add_listeners Socket.on_connect
disconnected-drops_example = disconnected-drops 0 live (wanted ∷ wanted ∷ []) refl refl

abbrev half : Progress
half = (whole 50, 1, λ n. (n, whole 20))

run_complete_example :
    (t : RunnerState) × (run
        (message 0 test_started
          ∷ (map (progress 0) (half ∷ []) ++ message 0 (test_complete measured) ∷ []))
        live
      ≡ with_state live t)
    × (t.latency_data ≡ all_points 1 (half ∷ []))
    × IsDone measured t
unfolding step waddle_perf.Runner.initialize Socket.connect waddle_perf.Runner.initialized
    Socket.add_listeners Socket.on_connect
run_complete_example = run_complete 0 1 live refl refl 0 refl (half ∷ []) measured
