-- ===== src/Tests/Speeds.antt =====
-- Runs of webClient/frontend/src/components/SpeedTest.tsx at fixed inputs.
use waddle_perf.Common.{ℕ, suc, zero, List, [], ◌∷◌, false, Option, none, some, ◌≡◌, refl}
use waddle_perf.Speed.State.{SpeedTestResult, initial, chunk_size}
use waddle_perf.Speed.Pings.{PingTurn, failed, latency_result, measure_latency, ping_loop}
use waddle_perf.Speed.Streams.{Event, stream, broke, handle, loop_head, measure}
use waddle_perf.Speed.Run.{Script, run_speed_test}
use waddle_perf.Speed.Setup.{IsCover, upload_data, upload_data-IsCover}
use waddle_perf.Speed.Outcome.{Stands, run_speed_test-Stands}

abbrev lost : ℕ → List PingTurn
lost zero = []
lost (suc n) = record { cancels = false; ping = failed false } ∷ lost n

abbrev all_break : List Event
all_break =
    stream 0 (broke false)
    ∷ stream 1 (broke false)
    ∷ stream 2 (broke false)
    ∷ stream 3 (broke false)
    ∷ stream 4 (broke false)
    ∷ stream 5 (broke false)
    ∷ []

-- No server answers.
abbrev unreachable : Script
unreachable = record {
  pings = lost 20;
  downloads = all_break;
  download_elapsed = 3;
  uploads = all_break;
  upload_elapsed = 2;
  timestamp = 9;
}

abbrev speeds : Option SpeedTestResult → List ℕ
speeds none = []
speeds (some r) = r.download.num ∷ r.upload.num ∷ r.latency.ping.den ∷ []

-- The test ends with a result: no bytes in both directions, and a ping that is 0 / 0.
unreachable_result : speeds (run_speed_test unreachable initial).result ≡ 0 ∷ 0 ∷ 0 ∷ []
unfolding run_speed_test measure_latency ping_loop measure loop_head handle latency_result
unreachable_result = refl

run_speed_test-Stands_example : Stands unreachable initial (run_speed_test unreachable initial)
run_speed_test-Stands_example = run_speed_test-Stands unreachable initial

upload_data-IsCover_example : IsCover 0 chunk_size (upload_data chunk_size)
upload_data-IsCover_example = upload_data-IsCover chunk_size
