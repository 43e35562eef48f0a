-- ===== src/Speed/Pings.antt =====
-- `measureLatency` of webClient/frontend/src/components/SpeedTest.tsx.
use waddle_perf.Common.{
  ℕ, zero, suc, ◌+◌, ◌-◌, ◌*◌, List, [], ◌∷◌, ◌++◌, Bool, true, false, if◌then◌else◌, length,
}
use waddle_perf.Download.{zero_quot}
use waddle_perf.Speed.State.{
  LatencyResult, SpeedState, num_samples, is_aborted, cancel_test, Thrown, latency_phase, value,
  thrown, pending,
}

-- One turn of the loop of pings: whether the user cancels before it, and how its `fetch` ends.
pub data Ping : Type 0 where
  answered : (latency : ℕ) → Ping
  failed : (is_abort : Bool) → Ping

pub record PingTurn : Type 0 where
  pub cancels : Bool
  pub ping : Ping

abbrev pub sum : List ℕ → ℕ
sum [] = 0
sum (x ∷ xs) = x + sum xs

-- `Math.abs(a - b)`
abbrev pub distance : ℕ → ℕ → ℕ
distance a b = (a - b) + (b - a)

-- The deviations from the average, `n` times each; `total / n` is the average.
abbrev pub deviations : ℕ → ℕ → List ℕ → ℕ
deviations n total [] = 0
deviations n total (x ∷ xs) = distance (x * n) total + deviations n total xs

-- In microseconds. Without a sample both are 0 / 0, which is NaN.
unfoldable pub latency_result : List ℕ → LatencyResult
latency_result samples =
    let n = length samples in
    record {
      ping = record { num = sum samples; den = n };
      jitter = record { num = deviations n (sum samples) samples; den = n * n };
      samples = samples;
    }

abbrev pub cancel_if : Bool → SpeedState → SpeedState
cancel_if b s = if b then cancel_test s else s

-- The body of the loop of pings: whether the test is aborted, and how the `fetch` ends. `answer` and
-- `skip` are the rest of the loop, with a sample and without.
abbrev pub ping_turn :
    {R : Type 0}
    → Bool
    → Ping
    → (ℕ → Thrown R × SpeedState)
    → Thrown R × SpeedState
    → SpeedState
    → Thrown R × SpeedState
ping_turn true p answer skip s = (thrown false, s)
ping_turn false (answered l) answer skip s = answer l
ping_turn false (failed true) answer skip s = (thrown true, s)
ping_turn false (failed false) answer skip s = skip

-- `setLatency` and `setProgress`, with `left` turns to go.
abbrev pub show_ping : ℕ → ℕ → SpeedState → SpeedState
show_ping left l s = record s {
  latency = l;
  progress = record { num = (num_samples - left) * 100; den = num_samples };
}

-- The loop of pings with `left` turns to go.
unfoldable pub ping_loop :
    ℕ → List PingTurn → List ℕ → SpeedState → Thrown LatencyResult × SpeedState
ping_loop zero turns samples s = (value (latency_result samples), s)
ping_loop (suc left) [] samples s = (pending, s)
ping_loop (suc left) (t ∷ turns) samples s =
    let s' = cancel_if t.cancels s in
    ping_turn (is_aborted s'.controller) t.ping
      (λ l. ping_loop left turns (samples ++ l ∷ []) (show_ping left l s'))
      (ping_loop left turns samples s') s'

unfoldable pub measure_latency : List PingTurn → SpeedState → Thrown LatencyResult × SpeedState
measure_latency turns s =
    ping_loop num_samples turns []
      (record s { current_phase = latency_phase; progress = zero_quot })
