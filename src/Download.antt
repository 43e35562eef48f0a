-- ===== src/Download.antt =====
-- The download test of webClient/frontend/src/components/DownloadTest.tsx: its state, the loop of
-- requests, cancellation, and what it renders. Times are milliseconds since the start of the test;
-- a clock that is set back is left out. Speeds and shares are exact quotients.
pub mod Bounds
pub mod Ends
pub mod Reading
pub mod View
use waddle_perf.Common.{
  ℕ, ◌+◌, ◌-◌, ◌*◌, ◌/◌, min, List, [], ◌∷◌, Bool, true, false, not, leb, ltb, if◌then◌else◌,
  Option, none, some,
}

-- The quotient of two numbers; a zero in `den` gives NaN or Infinity.
pub record Quot : Type 0 where
  pub num : ℕ
  pub den : ℕ

abbrev pub zero_quot : Quot
zero_quot = record { num = 0; den = 1 }

-- `a > b`, for quotients whose `den` is not zero.
abbrev pub exceeds : Quot → Quot → Bool
exceeds a b = ltb (b.num * a.den) (a.num * b.den)

pub record DownloadResult : Type 0 where
  pub file_size : ℕ
  pub duration : Quot
  pub average_speed : Quot
  pub peak_speed : Quot
  pub timestamp : ℕ

-- `controller` is the abort controller, where there is one: whether it has been aborted.
pub record DownloadState : Type 0 where
  pub is_running : Bool
  pub progress : Quot
  pub current_speed : Quot
  pub peak_speed : Quot
  pub bytes_downloaded : ℕ
  pub result : Option DownloadResult
  pub selected_size : ℕ
  pub controller : Option Bool

abbrev pub initial : DownloadState
initial = record {
  is_running = false;
  progress = zero_quot;
  current_speed = zero_quot;
  peak_speed = zero_quot;
  bytes_downloaded = 0;
  result = none;
  selected_size = 100;
  controller = none;
}

abbrev pub file_size_options : List ℕ
file_size_options = 10 ∷ 50 ∷ 100 ∷ 500 ∷ 1000 ∷ []

abbrev pub chunk_size_mb : ℕ
chunk_size_mb = 10

abbrev pub mega : ℕ
mega = 1048576

-- What `reader.read()` gave, and the time then.
pub record Chunk : Type 0 where
  pub bytes : ℕ
  pub now : ℕ

-- What `fetch` gave: it rejected, or there is a response. A body is read chunk by chunk, and may
-- break off in an error behind its chunks.
pub data Fetched : Type 0 where
  no_response : Fetched
  response : (ok : Bool) (has_body : Bool) (chunks : List Chunk) (broken : Bool) → Fetched

-- One round of the loop: whether the user cancelled before it, and what its request gave.
pub record Round : Type 0 where
  pub cancels : Bool
  pub fetched : Fetched

-- The local variables of the loop, with the component's state and the sizes asked for so far, the
-- last one first.
pub record Loop : Type 0 where
  pub state : DownloadState
  pub total_bytes : ℕ
  pub max_speed : Quot
  pub last_update : ℕ
  pub asked : List ℕ

abbrev pub speed_mbps : ℕ → ℕ → Quot
speed_mbps bytes elapsed = record { num = bytes * 8; den = elapsed * 1000 }

unfoldable pub note_speed : Quot → Loop → Loop
note_speed speed l =
    let m = record l { state = record l.state { current_speed = speed } } in
    if exceeds speed l.max_speed
    then record m { max_speed = speed; state = record m.state { peak_speed = speed } }
    else m

-- The speed, at most every 100 ms.
unfoldable pub sample : ℕ → Loop → Loop
sample now l =
    if leb 100 (now - l.last_update)
    then record (if ltb 0 now then note_speed (speed_mbps l.total_bytes now) l else l) {
      last_update = now;
    }
    else l

-- `Math.min((totalBytes / targetBytes) * 100, 100)`
abbrev pub percent : ℕ → ℕ → Quot
percent total target =
    if ltb total target
    then record { num = total * 100; den = target }
    else record { num = 100; den = 1 }

unfoldable pub read_chunk : ℕ → Chunk → Loop → Loop
read_chunk target c l =
    let total = l.total_bytes + c.bytes in
    let m =
      sample c.now
        (record l { total_bytes = total; state = record l.state { bytes_downloaded = total } }) in
    record m { state = record m.state { progress = percent total target } }

unfoldable pub read_body : ℕ → List Chunk → Loop → Loop
read_body target [] l = l
read_body target (c ∷ cs) l = read_body target cs (read_chunk target c l)

-- `Math.min(chunkSizeMB, Math.ceil(remainingBytes / (1024 * 1024)))`
unfoldable pub download_size : ℕ → ℕ → ℕ
download_size target total = min chunk_size_mb ((target - total + (mega - 1)) / mega)

abbrev pub ask : ℕ → Loop → Loop
ask target l = record l { asked = download_size target l.total_bytes ∷ l.asked }

abbrev pub is_there : Option Bool → Bool
is_there none = false
is_there (some b) = true

-- `abortControllerRef.current?.abort()`
unfoldable pub cancel_test : DownloadState → DownloadState
cancel_test s = if is_there s.controller then record s { controller = some true } else s

abbrev pub is_aborted : DownloadState → Bool
is_aborted s = elim s.controller [ none ↦ false | some b ↦ b ]

-- Behind the request; `false` where an error is thrown.
unfoldable pub receive : ℕ → Fetched → Loop → Bool × Loop
receive target no_response l = (false, l)
receive target (response false has_body chunks broken) l = (false, l)
receive target (response true false chunks broken) l = (false, l)
receive target (response true true chunks broken) l = (not broken, read_body target chunks l)

-- The body of the loop.
unfoldable pub round : ℕ → Round → Loop → Bool × Loop
round target r l =
    let s = if r.cancels then cancel_test l.state else l.state in
    let m = record l { state = s } in
    if is_aborted s then (false, m) else receive target r.fetched (ask target m)

-- How the `try` block stands.
pub data Exit : Type 0 where
  finished failed waiting : Exit

abbrev pub continue : (Loop → Exit × Loop) → Bool × Loop → Exit × Loop
continue next (true, l) = next l
continue next (false, l) = (failed, l)

-- The loop; when there are no more rounds, the last request waits for its response.
unfoldable pub loop : ℕ → List Round → Loop → Exit × Loop
unfolding round
loop target [] l = if ltb l.total_bytes target then (waiting, ask target l) else (finished, l)
loop target (r ∷ rs) l =
    let next = continue (λ m. loop target rs m) (round target r l) in
    if ltb l.total_bytes target then next else (finished, l)

abbrev pub start : DownloadState → Loop
start s = record {
  state = record s {
    is_running = true;
    result = none;
    progress = zero_quot;
    current_speed = zero_quot;
    peak_speed = zero_quot;
    bytes_downloaded = 0;
    controller = some false;
  };
  total_bytes = 0;
  max_speed = zero_quot;
  last_update = 0;
  asked = [];
}

-- 4 % on top.
abbrev pub compensate : Quot → Quot
compensate q = record { num = q.num * 104; den = q.den * 100 }

abbrev pub final_result : ℕ → ℕ → Loop → DownloadResult
final_result duration timestamp l = record {
  file_size = l.state.selected_size;
  duration = record { num = duration; den = 1000 };
  average_speed = compensate (speed_mbps l.total_bytes duration);
  peak_speed = compensate l.max_speed;
  timestamp = timestamp;
}

-- The `finally` block.
abbrev pub tidy : DownloadState → DownloadState
tidy s = record s {
  is_running = false;
  progress = zero_quot;
  current_speed = zero_quot;
  controller = none;
}

-- Behind the loop, `duration` ms after the start.
unfoldable pub settle : ℕ → ℕ → Exit × Loop → DownloadState
settle duration timestamp (finished, l) =
    tidy (record l.state { result = some (final_result duration timestamp l) })
settle duration timestamp (failed, l) = tidy l.state
settle duration timestamp (waiting, l) = l.state

abbrev pub target_bytes : DownloadState → ℕ
target_bytes s = s.selected_size * mega

unfoldable pub run_download_test : ℕ → ℕ → List Round → DownloadState → DownloadState
run_download_test duration timestamp rounds s =
    settle duration timestamp (loop (target_bytes s) rounds (start s))

-- The sizes of all requests of a test, the last one first.
abbrev pub requests : List Round → DownloadState → List ℕ
requests rounds s = (loop (target_bytes s) rounds (start s)).1.asked
