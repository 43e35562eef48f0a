-- ===== src/Speed/Streams.antt =====
-- `measureDownload` and `measureUpload` of webClient/frontend/src/components/SpeedTest.tsx: streams in
-- parallel, what happens to them, and what the transfer yields.
use waddle_perf.Common.{
  ℕ, zero, suc, ◌+◌, List, [], ◌∷◌, Bool, true, false, ◌&&◌, ◌||◌, ltb, if◌then◌else◌, Option, none,
  some,
}
use waddle_perf.Download.{Quot, zero_quot, speed_mbps, compensate}
use waddle_perf.Speed.State.{
  CurrentPhase, SpeedState, test_duration, chunk_size, is_aborted, is_there, cancel_test, Thrown,
  value, thrown, pending,
}

-- Where a stream stands.
pub data Stream : Type 0 where
  fetching reading returned : Stream
  threw : (is_abort : Bool) → Stream

-- `totalBytes`, the streams, the error that `Promise.all` has met first, and the component's state.
pub record Transfer : Type 0 where
  pub total_bytes : ℕ
  pub streams : List Stream
  pub first_error : Option Bool
  pub state : SpeedState

-- What happens to a stream. `responded` and the three behind it belong to a download, `uploaded` to
-- an upload.
pub data StreamEvent : Type 0 where
  responded : (ok has_body : Bool) → StreamEvent
  chunk : (bytes now : ℕ) → StreamEvent
  ended : (now : ℕ) → StreamEvent
  uploaded : (ok : Bool) (now : ℕ) → StreamEvent
  broke : (is_abort : Bool) → StreamEvent

-- The head of a stream's loop.
unfoldable pub loop_head : Bool → ℕ → Stream
loop_head aborted now =
    if ltb now test_duration then (if aborted then threw false else fetching) else returned

unfoldable pub add_bytes : ℕ → ℕ → Transfer → Transfer
add_bytes bytes now x =
    let total = x.total_bytes + bytes in
    let y = record x { total_bytes = total } in
    if ltb 0 now
    then record y { state = record y.state { current_speed = speed_mbps total now } }
    else y

-- The stream's next place, and what it adds to the transfer.
unfoldable pub advance : StreamEvent → Stream → Transfer → Stream × Transfer
advance (responded ok has_body) fetching x = (if ok && has_body then reading else returned, x)
advance (chunk bytes now) reading x = (reading, add_bytes bytes now x)
advance (ended now) reading x = (loop_head (is_aborted x.state.controller) now, x)
advance (uploaded ok now) fetching x =
    if ok
    then (loop_head (is_aborted x.state.controller) now, add_bytes chunk_size now x)
    else (returned, x)
advance (broke is_abort) fetching x = (if is_abort then threw true else returned, x)
advance (broke is_abort) reading x = (if is_abort then threw true else returned, x)
advance e s x = (s, x)

abbrev pub stream_at : ℕ → List Stream → Stream
stream_at i [] = returned
stream_at zero (s ∷ ss) = s
stream_at (suc i) (s ∷ ss) = stream_at i ss

abbrev pub put : ℕ → Stream → List Stream → List Stream
put i s [] = []
put zero s (t ∷ ts) = s ∷ ts
put (suc i) s (t ∷ ts) = t ∷ put i s ts

-- The first rejection is the one that `Promise.all` passes on.
abbrev pub note_error : Stream → Option Bool → Option Bool
note_error (threw is_abort) none = some is_abort
note_error s o = o

abbrev pub settle_at : ℕ → Stream × Transfer → Transfer
settle_at i (s, x) = record x {
  streams = put i s x.streams;
  first_error = note_error s x.first_error;
}

-- An event of a stream, or the user's click on "Cancel".
pub data Event : Type 0 where
  stream : ℕ → StreamEvent → Event
  cancel : Event

unfoldable pub handle : Event → Transfer → Transfer
unfolding advance
handle (stream i e) x = settle_at i (advance e (stream_at i x.streams) x)
handle cancel x = record x { state = cancel_test x.state }

abbrev pub is_returned : Stream → Bool
is_returned returned = true
is_returned _ = false

abbrev pub all_returned : List Stream → Bool
all_returned [] = true
all_returned (s ∷ ss) = is_returned s && all_returned ss

-- Whether `Promise.all` is settled.
abbrev pub is_settled : Transfer → Bool
is_settled x = is_there x.first_error || all_returned x.streams

-- The transfer behind its events, up to the one that settles it, and the events that are left.
abbrev pub await_all : List Event → Transfer → Transfer × List Event
await_all [] x = (x, [])
await_all (e ∷ es) x =
    let next = await_all es (handle e x) in if is_settled x then (x, e ∷ es) else next

abbrev pub replicate : ℕ → Stream → List Stream
replicate zero s = []
replicate (suc n) s = s ∷ replicate n s

-- What a transfer begins with: every stream has passed the head of its loop, at time 0.
abbrev pub begin : CurrentPhase → SpeedState → Transfer
begin phase s =
    let first = loop_head (is_aborted s.controller) 0 in
    record {
      total_bytes = 0;
      streams = replicate s.num_streams first;
      first_error = note_error (stream_at 0 (replicate s.num_streams first)) none;
      state = record s { current_phase = phase; progress = zero_quot; current_speed = zero_quot };
    }

-- `measureDownload` and `measureUpload`, which differ in the phase and in what their streams do;
-- `elapsed` is the time at which the streams are settled. An error that is no AbortError is passed
-- over. What streams do that are still running behind such an error is left out.
abbrev pub speed_of : ℕ → Transfer → Thrown Quot × SpeedState
speed_of elapsed x = (
  value (compensate (speed_mbps x.total_bytes elapsed)),
  record x.state { progress = record { num = 100; den = 1 } },
)

unfoldable pub measured : Option Bool → Bool → ℕ → Transfer → Thrown Quot × SpeedState
measured (some true) returned_all elapsed x = (thrown true, x.state)
measured (some false) returned_all elapsed x = speed_of elapsed x
measured none true elapsed x = speed_of elapsed x
measured none false elapsed x = (pending, x.state)

unfoldable pub measure : CurrentPhase → ℕ → List Event → SpeedState → Thrown Quot × SpeedState
unfolding measured
measure phase elapsed es s =
    let x = (await_all es (begin phase s)).0 in
    measured x.first_error (all_returned x.streams) elapsed x
