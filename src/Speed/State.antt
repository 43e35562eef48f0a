-- ===== src/Speed/State.antt =====
-- The state of webClient/frontend/src/components/SpeedTest.tsx, its constants, and how a part of the
-- test ends.
use waddle_perf.Common.{ℕ, List, Bool, true, false, if◌then◌else◌, Option, none, some}
use waddle_perf.Download.{Quot, zero_quot}

pub record LatencyResult : Type 0 where
  pub ping : Quot
  pub jitter : Quot
  pub samples : List ℕ

pub record SpeedTestResult : Type 0 where
  pub download : Quot
  pub upload : Quot
  pub latency : LatencyResult
  pub timestamp : ℕ

pub data CurrentPhase : Type 0 where
  idle latency_phase download_phase upload_phase : CurrentPhase

-- `controller`: whether it has been aborted, where there is one. `latency` is in microseconds.
pub record SpeedState : Type 0 where
  pub is_running : Bool
  pub current_phase : CurrentPhase
  pub progress : Quot
  pub current_speed : Quot
  pub latency : ℕ
  pub result : Option SpeedTestResult
  pub num_streams : ℕ
  pub controller : Option Bool

abbrev pub initial : SpeedState
initial = record {
  is_running = false;
  current_phase = idle;
  progress = zero_quot;
  current_speed = zero_quot;
  latency = 0;
  result = none;
  num_streams = 6;
  controller = none;
}

abbrev pub num_samples : ℕ
num_samples = 20

abbrev pub test_duration : ℕ
test_duration = 10000

-- `chunkSizeMB * 1024 * 1024`
abbrev pub chunk_size : ℕ
chunk_size = 10485760

abbrev pub is_aborted : Option Bool → Bool
is_aborted none = false
is_aborted (some b) = b

abbrev pub is_there : Option Bool → Bool
is_there none = false
is_there (some b) = true

-- `abortControllerRef.current?.abort()`
unfoldable pub cancel_test : SpeedState → SpeedState
cancel_test s = if is_there s.controller then record s { controller = some true } else s

-- An error that is thrown: whether it is an AbortError.
pub data Thrown (A : Type 0) : Type 0 where
  value : A → Thrown A
  thrown : (is_abort : Bool) → Thrown A
  pending : Thrown A
