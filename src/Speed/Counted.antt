-- ===== src/Speed/Counted.antt =====
-- What the pings and the transfers of webClient/frontend/src/components/SpeedTest.tsx have counted,
-- from what happened to them.
use waddle_perf.Common.{
  ℕ, zero, suc, ◌+◌, ◌-◌, ◌*◌, ◌≤◌, List, [], ◌∷◌, take, length, min, true, false, ltb,
  if◌then◌else◌, ◌≡◌, refl, ap, ◌∙◌, arith, inl, inr, Bool-cases,
}
use waddle_perf.Download.{Quot}
use waddle_perf.Speed.State.{LatencyResult, num_samples, chunk_size}
use waddle_perf.Speed.Pings.{Ping, answered, failed, PingTurn, sum, deviations, latency_result}
use waddle_perf.Speed.Streams.{
  Stream, fetching, reading, returned, threw, Transfer, StreamEvent, responded, chunk, ended,
  uploaded, broke, add_bytes, advance, stream_at, Event, stream, cancel, handle, is_settled,
  await_all,
}

-- The bytes that an event brings to a stream: those of a chunk that is read, or of an upload that was
-- accepted.
abbrev pub event_bytes : StreamEvent → Stream → ℕ
event_bytes (chunk bytes now) reading = bytes
event_bytes (uploaded true now) fetching = chunk_size
event_bytes e s = 0

abbrev pub moved_by : Event → Transfer → ℕ
moved_by (stream i e) x = event_bytes e (stream_at i x.streams)
moved_by cancel x = 0

-- The bytes of all events up to the one that settles the transfer.
abbrev pub moved : List Event → Transfer → ℕ
moved [] x = 0
moved (e ∷ es) x =
    let rest = moved es (handle e x) in if is_settled x then 0 else moved_by e x + rest

add_bytes-total :
    (bytes now : ℕ) (x : Transfer) → (add_bytes bytes now x).total_bytes ≡ x.total_bytes + bytes
unfolding add_bytes
add_bytes-total bytes now x = elim (Bool-cases (ltb 0 now)) [
  | inl e ↦ rw e refl
  | inr e ↦ rw e refl
]

advance-total :
    (e : StreamEvent) (s : Stream) (x : Transfer)
    → (advance e s x).1.total_bytes ≡ x.total_bytes + event_bytes e s
unfolding advance
advance-total (responded ok has_body) fetching x = omega arith
advance-total (responded ok has_body) reading x = omega arith
advance-total (responded ok has_body) returned x = omega arith
advance-total (responded ok has_body) (threw a) x = omega arith
advance-total (chunk bytes now) fetching x = omega arith
advance-total (chunk bytes now) reading x = add_bytes-total bytes now x
advance-total (chunk bytes now) returned x = omega arith
advance-total (chunk bytes now) (threw a) x = omega arith
advance-total (ended now) fetching x = omega arith
advance-total (ended now) reading x = omega arith
advance-total (ended now) returned x = omega arith
advance-total (ended now) (threw a) x = omega arith
advance-total (uploaded true now) fetching x = add_bytes-total chunk_size now x
advance-total (uploaded false now) fetching x = omega arith
advance-total (uploaded true now) reading x = omega arith
advance-total (uploaded false now) reading x = omega arith
advance-total (uploaded true now) returned x = omega arith
advance-total (uploaded false now) returned x = omega arith
advance-total (uploaded true now) (threw a) x = omega arith
advance-total (uploaded false now) (threw a) x = omega arith
advance-total (broke a) fetching x = omega arith
advance-total (broke a) reading x = omega arith
advance-total (broke a) returned x = omega arith
advance-total (broke a) (threw b) x = omega arith

handle-total : (e : Event) (x : Transfer) → (handle e x).total_bytes ≡ x.total_bytes + moved_by e x
unfolding handle
handle-total (stream i e) x = advance-total e (stream_at i x.streams) x
handle-total cancel x = omega arith

pub await_all-total :
    (es : List Event) (x : Transfer) → (await_all es x).0.total_bytes ≡ x.total_bytes + moved es x
await_all-total [] x = omega arith
await_all-total (e ∷ es) x = elim (Bool-cases (is_settled x)) [
  | inl settled ↦ rw settled (omega arith)
  | inr open_still ↦
      rw open_still (omega (arith, handle-total e x, await_all-total es (handle e x)))
]

-- The times of the pings that were answered.
abbrev pub with_ping : Ping → List ℕ → List ℕ
with_ping (answered l) ls = l ∷ ls
with_ping (failed is_abort) ls = ls

abbrev pub answers : List PingTurn → List ℕ
answers [] = []
answers (t ∷ turns) = with_ping t.ping (answers turns)

abbrev pub total_of : (ℕ → ℕ) → List ℕ → ℕ
total_of f [] = 0
total_of f (x ∷ xs) = f x + total_of f xs

-- `q` is the average of `f` over `xs`, in `unit`-ths; without any numbers it is 0 / 0.
abbrev pub IsMean : (ℕ → ℕ) → ℕ → List ℕ → Quot → Type 0
IsMean f unit xs q =
    (q.num * (length xs * unit) ≡ total_of f xs * q.den) × (min 1 (length xs) ≤ q.den)

-- How far `x` is from the average `q`, in parts of its denominator.
abbrev pub apart : Quot → ℕ → ℕ
apart q x = (x * q.den - q.num) + (q.num - x * q.den)

-- What the pings of these turns yield: the times of those that were answered, their average, and the
-- average of how far they are from it.
pub record IsMeasured (turns : List PingTurn) (r : LatencyResult) : Type 0 where
  pub samples : r.samples ≡ answers (take num_samples turns)
  pub few : length r.samples ≤ num_samples
  pub ping : IsMean (λ x. x) 1 r.samples r.ping
  pub jitter : IsMean (apart r.ping) r.ping.den r.samples r.jitter

sum-total_of : (xs : List ℕ) → sum xs ≡ total_of (λ x. x) xs
sum-total_of [] = refl
sum-total_of (x ∷ xs) = omega (arith, sum-total_of xs)

deviations-total_of :
    (n total : ℕ) (xs : List ℕ)
    → deviations n total xs ≡ total_of (apart (record { num = total; den = n })) xs
deviations-total_of n total [] = refl
deviations-total_of n total (x ∷ xs) = omega (arith, deviations-total_of n total xs)

square_pos : (n : ℕ) → min 1 n ≤ n * n
square_pos zero = omega arith
square_pos (suc n) = grind arith

latency_result-ping : (xs : List ℕ) → IsMean (λ x. x) 1 xs (latency_result xs).ping
unfolding latency_result
latency_result-ping xs =
    (ap (λ k. sum xs * k) (omega arith) ∙ ap (λ t. t * length xs) (sum-total_of xs), omega arith)

latency_result-jitter :
    (xs : List ℕ)
    → IsMean
        (apart (latency_result xs).ping)
        (latency_result xs).ping.den
        xs
        (latency_result xs).jitter
unfolding latency_result
latency_result-jitter xs = (
  ap (λ t. t * (length xs * length xs)) (deviations-total_of (length xs) (sum xs) xs),
  square_pos (length xs),
)

length-answers : (n : ℕ) (turns : List PingTurn) → length (answers (take n turns)) ≤ n
length-answers zero turns = omega arith
length-answers (suc n) [] = omega arith
length-answers (suc n) (t ∷ turns) = at_most t.ping (length-answers n turns)
  where
    at_most :
        (p : Ping)
        → length (answers (take n turns)) ≤ n
        → length (with_ping p (answers (take n turns))) ≤ suc n
    at_most (answered l) h = omega (arith, h)
    at_most (failed b) h = omega (arith, h)

pub latency_result-IsMeasured :
    (turns : List PingTurn) → IsMeasured turns (latency_result (answers (take num_samples turns)))
unfolding latency_result
latency_result-IsMeasured turns =
    let xs = answers (take num_samples turns) in
    record {
      samples = refl;
      few = length-answers num_samples turns;
      ping = latency_result-ping xs;
      jitter = latency_result-jitter xs;
    }
