-- ===== src/Speed/Laws.antt =====
-- What every step of webClient/frontend/src/components/SpeedTest.tsx keeps, and the two numbers of
-- the pings.
use waddle_perf.Common.{
  ℕ, zero, suc, ◌+◌, ◌*◌, ◌≤◌, List, [], ◌∷◌, ◌++◌, Bool, true, false, ltb, Option, none, some, ◌≡◌,
  arith, length, if_intro,
}
use waddle_perf.Speed.State.{
  CurrentPhase, SpeedState, cancel_test, is_aborted, is_there, Thrown, chunk_size,
}
use waddle_perf.Speed.Pings.{
  cancel_if, ping_turn, show_ping, Ping, answered, failed, PingTurn, sum, deviations,
  latency_result, ping_loop,
}
use waddle_perf.Speed.Streams.{
  Stream, fetching, reading, returned, threw, Transfer, StreamEvent, responded, chunk, ended,
  uploaded, broke, add_bytes, advance, stream_at, Event, stream, cancel, handle, is_settled,
  await_all, all_returned, begin, measured, measure,
}

-- The average deviation from the average is at most twice the average.
deviations_le : (n total : ℕ) (xs : List ℕ) → deviations n total xs ≤ sum xs * n + length xs * total
deviations_le n total [] = omega arith
deviations_le n total (x ∷ xs) = omega (arith, deviations_le n total xs)

-- The jitter that the pings give is at most twice the ping, with both as quotients over the square
-- of the number of samples.
latency_result-jitter :
    (samples : List ℕ)
    → (latency_result samples).jitter.num ≤ 2 * ((latency_result samples).ping.num * length samples)
unfolding latency_result
latency_result-jitter samples = omega (arith, deviations_le (length samples) (sum samples) samples)

-- A test is under way.
abbrev pub IsUnderWay : SpeedState → Type 0
IsUnderWay s = (s.is_running ≡ true) × (s.result ≡ none)

cancel_test-IsUnderWay : (s : SpeedState) → IsUnderWay s → IsUnderWay (cancel_test s)
unfolding cancel_test
cancel_test-IsUnderWay s h = if_intro IsUnderWay (is_there s.controller) _ _ h h

ping_turn-IsUnderWay :
    {R : Type 0} (aborted : Bool) (p : Ping) (answer : ℕ → Thrown R × SpeedState)
    (skip : Thrown R × SpeedState) (s : SpeedState)
    → ((l : ℕ) → IsUnderWay (answer l).1)
    → IsUnderWay skip.1
    → IsUnderWay s
    → IsUnderWay (ping_turn aborted p answer skip s).1
ping_turn-IsUnderWay true p answer skip s a k h = h
ping_turn-IsUnderWay false (answered l) answer skip s a k h = a l
ping_turn-IsUnderWay false (failed true) answer skip s a k h = h
ping_turn-IsUnderWay false (failed false) answer skip s a k h = k

pub ping_loop-IsUnderWay :
    (left : ℕ) (turns : List PingTurn) (samples : List ℕ) (s : SpeedState)
    → IsUnderWay s
    → IsUnderWay (ping_loop left turns samples s).1
unfolding ping_loop
ping_loop-IsUnderWay zero turns samples s h = h
ping_loop-IsUnderWay (suc left) [] samples s h = h
ping_loop-IsUnderWay (suc left) (t ∷ turns) samples s h =
    let s' = cancel_if t.cancels s in
    let h' = if_intro IsUnderWay t.cancels _ _ (cancel_test-IsUnderWay s h) h in
    ping_turn-IsUnderWay (is_aborted s'.controller) t.ping
      (λ l. ping_loop left turns (samples ++ l ∷ []) (show_ping left l s'))
      (ping_loop left turns samples s') s'
      (λ l. ping_loop-IsUnderWay left turns (samples ++ l ∷ []) (show_ping left l s') h')
      (ping_loop-IsUnderWay left turns samples s' h') h'

add_bytes-IsUnderWay :
    (bytes now : ℕ) (x : Transfer) → IsUnderWay x.state → IsUnderWay (add_bytes bytes now x).state
unfolding add_bytes
add_bytes-IsUnderWay bytes now x h =
    if_intro (λ (y : Transfer). IsUnderWay y.state) (ltb 0 now) _ _ h h

advance-IsUnderWay :
    (e : StreamEvent) (s : Stream) (x : Transfer)
    → IsUnderWay x.state
    → IsUnderWay (advance e s x).1.state
unfolding advance
advance-IsUnderWay (responded ok has_body) fetching x h = h
advance-IsUnderWay (responded ok has_body) reading x h = h
advance-IsUnderWay (responded ok has_body) returned x h = h
advance-IsUnderWay (responded ok has_body) (threw a) x h = h
advance-IsUnderWay (chunk bytes now) fetching x h = h
advance-IsUnderWay (chunk bytes now) reading x h = add_bytes-IsUnderWay bytes now x h
advance-IsUnderWay (chunk bytes now) returned x h = h
advance-IsUnderWay (chunk bytes now) (threw a) x h = h
advance-IsUnderWay (ended now) fetching x h = h
advance-IsUnderWay (ended now) reading x h = h
advance-IsUnderWay (ended now) returned x h = h
advance-IsUnderWay (ended now) (threw a) x h = h
advance-IsUnderWay (uploaded ok now) fetching x h =
    if_intro (λ (y : Stream × Transfer). IsUnderWay y.1.state) ok _ _
      (add_bytes-IsUnderWay chunk_size now x h) h
advance-IsUnderWay (uploaded ok now) reading x h = h
advance-IsUnderWay (uploaded ok now) returned x h = h
advance-IsUnderWay (uploaded ok now) (threw a) x h = h
advance-IsUnderWay (broke a) fetching x h = h
advance-IsUnderWay (broke a) reading x h = h
advance-IsUnderWay (broke a) returned x h = h
advance-IsUnderWay (broke a) (threw b) x h = h

handle-IsUnderWay : (e : Event) (x : Transfer) → IsUnderWay x.state → IsUnderWay (handle e x).state
unfolding handle
handle-IsUnderWay (stream i e) x h = advance-IsUnderWay e (stream_at i x.streams) x h
handle-IsUnderWay cancel x h = cancel_test-IsUnderWay x.state h

await_all-IsUnderWay :
    (es : List Event) (x : Transfer) → IsUnderWay x.state → IsUnderWay (await_all es x).0.state
await_all-IsUnderWay [] x h = h
await_all-IsUnderWay (e ∷ es) x h =
    if_intro (λ (y : Transfer × List Event). IsUnderWay y.0.state) (is_settled x) _ _ h
      (await_all-IsUnderWay es (handle e x) (handle-IsUnderWay e x h))

measured-IsUnderWay :
    (o : Option Bool) (b : Bool) (elapsed : ℕ) (x : Transfer)
    → IsUnderWay x.state
    → IsUnderWay (measured o b elapsed x).1
unfolding measured
measured-IsUnderWay (some true) b elapsed x h = h
measured-IsUnderWay (some false) b elapsed x h = h
measured-IsUnderWay none true elapsed x h = h
measured-IsUnderWay none false elapsed x h = h

pub measure-IsUnderWay :
    (phase : CurrentPhase) (elapsed : ℕ) (es : List Event) (s : SpeedState)
    → IsUnderWay s
    → IsUnderWay (measure phase elapsed es s).1
unfolding measure
measure-IsUnderWay phase elapsed es s h =
    let x = (await_all es (begin phase s)).0 in
    measured-IsUnderWay x.first_error (all_returned x.streams) elapsed x
      (await_all-IsUnderWay es (begin phase s) h)
