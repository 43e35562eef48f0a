-- ===== src/Speed/Run.antt =====
-- `runSpeedTest` of webClient/frontend/src/components/SpeedTest.tsx: the three parts one after the
-- other.
use waddle_perf.Common.{ℕ, List, true, false, none, some}
use waddle_perf.Download.{zero_quot}
use waddle_perf.Speed.State.{
  SpeedState, Thrown, idle, download_phase, upload_phase, value, thrown, pending,
}
use waddle_perf.Speed.Pings.{PingTurn, measure_latency}
use waddle_perf.Speed.Streams.{Event, measure}

-- What comes from outside in a whole test.
pub record Script : Type 0 where
  pub pings : List PingTurn
  pub downloads : List Event
  pub download_elapsed : ℕ
  pub uploads : List Event
  pub upload_elapsed : ℕ
  pub timestamp : ℕ

abbrev pub start : SpeedState → SpeedState
start s = record s { is_running = true; result = none; latency = 0; controller = some false }

-- The `finally` block.
abbrev pub tidy : SpeedState → SpeedState
tidy s = record s {
  is_running = false;
  current_phase = idle;
  progress = zero_quot;
  current_speed = zero_quot;
  controller = none;
}

-- `await` of a phase, and what follows it.
abbrev pub then_with :
    {A : Type 0} → Thrown A × SpeedState → (A → SpeedState → SpeedState) → SpeedState
then_with (value a, s) next = next a s
then_with (thrown is_abort, s) next = tidy s
then_with (pending, s) next = s

unfoldable pub run_speed_test : Script → SpeedState → SpeedState
run_speed_test script s = then_with (measure_latency script.pings (start s)) (λ latency s1.
    then_with (measure download_phase script.download_elapsed script.downloads s1) (λ download s2.
      then_with (measure upload_phase script.upload_elapsed script.uploads s2) (λ upload s3.
        tidy (record s3 {
          result = some (record {
            download = download;
            upload = upload;
            latency = latency;
            timestamp = script.timestamp;
          });
        }))))
