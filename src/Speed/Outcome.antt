-- ===== src/Speed/Outcome.antt =====
-- How a run of webClient/frontend/src/components/SpeedTest.tsx stands, whatever happens to it.
use waddle_perf.Common.{
  ℕ, zero, suc, List, [], ◌∷◌, ◌++◌, Bool, true, false, Option, none, some, ◌≡◌, refl, arith, take,
  append-nil, append_assoc, sym, ap, ◌∙◌, subst, ◌*◌,
}
use waddle_perf.Download.{Quot, zero_quot}
use waddle_perf.Speed.State.{
  CurrentPhase, LatencyResult, SpeedTestResult, idle, latency_phase, download_phase, upload_phase,
  SpeedState, is_aborted, Thrown, value, thrown, pending, num_samples,
}
use waddle_perf.Speed.Pings.{
  cancel_if, ping_turn, show_ping, Ping, answered, failed, PingTurn, latency_result, ping_loop,
  measure_latency,
}
use waddle_perf.Speed.Streams.{Transfer, Event, await_all, begin, all_returned, measured, measure}
use waddle_perf.Speed.Run.{run_speed_test, Script, start, then_with}
use waddle_perf.Speed.Counted.{
  moved, await_all-total, with_ping, answers, IsMeasured, latency_result-IsMeasured,
}
use waddle_perf.Speed.Laws.{IsUnderWay, ping_loop-IsUnderWay, measure-IsUnderWay}

-- A result that is thrown or awaited says nothing.
abbrev pub HasValue : {A : Type 0} → (A → Type 0) → Thrown A → Type 0
HasValue P (value a) = P a
HasValue P (thrown b) = Unit
HasValue P pending = Unit

ping_turn-HasValue :
    {R : Type 0} (P : R → Type 0) (aborted : Bool) (p : Ping) (answer : ℕ → Thrown R × SpeedState)
    (skip : Thrown R × SpeedState) (s : SpeedState)
    → ((l : ℕ) → p ≡ answered l → HasValue P (answer l).0)
    → (p ≡ failed false → HasValue P skip.0)
    → HasValue P (ping_turn aborted p answer skip s).0
ping_turn-HasValue P true p answer skip s a k = tt
ping_turn-HasValue P false (answered l) answer skip s a k = a l refl
ping_turn-HasValue P false (failed true) answer skip s a k = tt
ping_turn-HasValue P false (failed false) answer skip s a k = k refl

abbrev Yields : List ℕ → LatencyResult → Type 0
Yields xs r = r ≡ latency_result xs

-- A loop that yields a value has gone through all its turns.
ping_loop-Yields :
    (left : ℕ) (turns : List PingTurn) (samples : List ℕ) (s : SpeedState)
    → HasValue (Yields (samples ++ answers (take left turns))) (ping_loop left turns samples s).0
unfolding ping_loop
ping_loop-Yields zero turns samples s = ap latency_result (sym (append-nil samples))
ping_loop-Yields (suc left) [] samples s = tt
ping_loop-Yields (suc left) (t ∷ turns) samples s =
    let s' = cancel_if t.cancels s in
    let later = answers (take left turns) in
    ping_turn-HasValue (Yields (samples ++ with_ping t.ping later)) (is_aborted s'.controller)
      t.ping (λ l. ping_loop left turns (samples ++ l ∷ []) (show_ping left l s'))
      (ping_loop left turns samples s') s'
      (λ l e.
        subst
          (λ xs.
            HasValue (Yields xs) (ping_loop left turns (samples ++ l ∷ []) (show_ping left l s')).0)
          (append_assoc samples (l ∷ []) later ∙ ap (λ p. samples ++ with_ping p later) (sym e))
          (ping_loop-Yields left turns (samples ++ l ∷ []) (show_ping left l s')))
      (λ e.
        subst (λ xs. HasValue (Yields xs) (ping_loop left turns samples s').0)
          (ap (λ p. samples ++ with_ping p later) (sym e)) (ping_loop-Yields left turns samples s'))

Yields-IsMeasured :
    (turns : List PingTurn) (x : Thrown LatencyResult)
    → HasValue (Yields (answers (take num_samples turns))) x
    → HasValue (IsMeasured turns) x
Yields-IsMeasured turns (value r) h =
    subst (IsMeasured turns) (sym h) (latency_result-IsMeasured turns)
Yields-IsMeasured turns (thrown b) h = tt
Yields-IsMeasured turns pending h = tt

-- The state behind the `finally` block.
abbrev pub IsIdle : SpeedState → Type 0
IsIdle s =
    (s.is_running ≡ false)
    × (s.current_phase ≡ idle)
    × (s.current_speed ≡ zero_quot)
    × (s.controller ≡ none)

-- Megabits a second, of these bytes in these milliseconds, with 4 % on top.
abbrev pub IsSpeed : ℕ → ℕ → Quot → Type 0
IsSpeed bytes elapsed q = (q.num ≡ bytes * 832) × (q.den ≡ elapsed * 100000)

-- The transfer as its phase begins it, and the bytes that its events have brought.
abbrev pub bytes_of : CurrentPhase → List Event → SpeedState → ℕ
bytes_of phase es s = moved es (begin phase s)

measured-HasValue :
    (o : Option Bool) (b : Bool) (elapsed : ℕ) (x : Transfer)
    → HasValue (IsSpeed x.total_bytes elapsed) (measured o b elapsed x).0
unfolding measured
measured-HasValue (some true) b elapsed x = tt
measured-HasValue (some false) b elapsed x = (omega arith, omega arith)
measured-HasValue none true elapsed x = (omega arith, omega arith)
measured-HasValue none false elapsed x = tt

measure-HasValue :
    (phase : CurrentPhase) (elapsed : ℕ) (es : List Event) (s : SpeedState)
    → HasValue (IsSpeed (bytes_of phase es s) elapsed) (measure phase elapsed es s).0
unfolding measure
measure-HasValue phase elapsed es s =
    let x = (await_all es (begin phase s)).0 in
    subst
      (λ n.
        HasValue (IsSpeed n elapsed) (measured x.first_error (all_returned x.streams) elapsed x).0)
      (omega (arith, await_all-total es (begin phase s)))
      (measured-HasValue x.first_error (all_returned x.streams) elapsed x)

-- The state in which the downloads begin, and the one in which the uploads do.
abbrev pub behind_pings : Script → SpeedState → SpeedState
behind_pings script s = (measure_latency script.pings (start s)).1

abbrev pub behind_downloads : Script → SpeedState → SpeedState
behind_downloads script s =
    (measure download_phase script.download_elapsed script.downloads (behind_pings script s)).1

-- A test is under way, or it is over, without a result or with one.
pub data Stands (script : Script) (before s : SpeedState) : Type 0 where
  under_way : IsUnderWay s → Stands script before s
  over : IsIdle s → s.result ≡ none → Stands script before s
  over_with :
      IsIdle s
      → (r : SpeedTestResult) → s.result ≡ some r
      → IsMeasured script.pings r.latency
      → IsSpeed
          (bytes_of download_phase script.downloads (behind_pings script before))
          script.download_elapsed
          r.download
      → IsSpeed
          (bytes_of upload_phase script.uploads (behind_downloads script before))
          script.upload_elapsed
          r.upload
      → r.timestamp ≡ script.timestamp
      → Stands script before s

then_with-Stands :
    {A : Type 0} (P : A → Type 0) (script : Script) (before : SpeedState)
    (x : Thrown A × SpeedState) (next : A → SpeedState → SpeedState)
    → HasValue P x.0
    → IsUnderWay x.1
    → ((a : A) → P a → Stands script before (next a x.1))
    → Stands script before (then_with x next)
then_with-Stands P script before (value a, s) next p h k = k a p
then_with-Stands P script before (thrown b, s) next p (run, nothing) k =
    over (refl, refl, refl, refl) nothing
then_with-Stands P script before (pending, s) next p h k = under_way h

-- Whatever happens to the pings and the streams and whenever the user cancels, a test is under way
-- without a result, or it is over: nothing runs, the phase is idle, no speed is shown, and the
-- controller is gone. Where it is over with a result, its samples are the times of the answered ones
-- among the first twenty pings, the ping is their average and the jitter the average of how far they
-- are from it; and each speed is that of the bytes which the chunks and uploads of its phase brought,
-- over the time of the phase, with 4 % on top.
pub run_speed_test-Stands :
    (script : Script) (s : SpeedState) → Stands script s (run_speed_test script s)
unfolding run_speed_test measure_latency
run_speed_test-Stands script s =
    let first = record (start s) { current_phase = latency_phase; progress = zero_quot } in
    let pinged = ping_loop-IsUnderWay num_samples script.pings [] first (refl, refl) in
    let s1 = behind_pings script s in
    let elapsed = script.download_elapsed in
    let loaded = measure-IsUnderWay download_phase elapsed script.downloads s1 pinged in
    let s2 = behind_downloads script s in
    let elapsed' = script.upload_elapsed in
    then_with-Stands (IsMeasured script.pings) script s (measure_latency script.pings (start s)) _
      (Yields-IsMeasured script.pings _ (ping_loop-Yields num_samples script.pings [] first)) pinged
      (λ l sampled.
        then_with-Stands (IsSpeed (bytes_of download_phase script.downloads s1) elapsed) script s
          (measure download_phase elapsed script.downloads s1) _
          (measure-HasValue download_phase elapsed script.downloads s1) loaded
          (λ d down.
            then_with-Stands (IsSpeed (bytes_of upload_phase script.uploads s2) elapsed') script s
              (measure upload_phase elapsed' script.uploads s2) _
              (measure-HasValue upload_phase elapsed' script.uploads s2)
              (measure-IsUnderWay upload_phase elapsed' script.uploads s2 loaded)
              (λ u up. over_with (refl, refl, refl, refl) _ refl sampled down up refl)))
