-- ===== src/Download/Bounds.antt =====
-- What holds of every run of the download test of
-- webClient/frontend/src/components/DownloadTest.tsx: the sizes that it asks for, and its result.
use waddle_perf.Common.{
  ℕ, ◌+◌, ◌-◌, ◌*◌, ◌≤◌, ◌<◌, List, [], ◌∷◌, Bool, true, false, leb, ltb, if◌then◌else◌, none, some,
  ◌≡◌, refl, sym, ap, inl, inr, arith, All, Bool-cases, if_intro,
}
use waddle_perf.Download.{
  Quot, exceeds, DownloadResult, DownloadState, chunk_size_mb, Chunk, Fetched, no_response,
  response, Round, Loop, speed_mbps, note_speed, sample, read_chunk, read_body, download_size, ask,
  cancel_test, is_aborted, is_there, receive, round, Exit, finished, failed, waiting, continue,
  loop, start, settle, target_bytes, run_download_test, requests, final_result, compensate,
}

-- One to ten megabytes.
abbrev pub IsChunkSize : ℕ → Type 0
IsChunkSize size = (1 ≤ size) × (size ≤ chunk_size_mb)

-- The test is running, the bytes on the page are the ones that were counted, and the sizes asked
-- for are fair.
abbrev pub IsCounted : ℕ → Loop → Type 0
IsCounted selected l =
    (l.state.bytes_downloaded ≡ l.total_bytes)
    × (l.state.selected_size ≡ selected)
    × (l.state.result ≡ none)
    × (l.state.is_running ≡ true)
    × All IsChunkSize l.asked

pub download_size-IsChunkSize :
    (target total : ℕ) → total < target → IsChunkSize (download_size target total)
unfolding download_size
download_size-IsChunkSize target total lt = (omega arith, omega arith)

note_speed-IsCounted : (n : ℕ) (q : Quot) (l : Loop) → IsCounted n l → IsCounted n (note_speed q l)
unfolding note_speed
note_speed-IsCounted n q l h = if_intro (IsCounted n) (exceeds q l.max_speed) _ _ h h

sample-IsCounted : (n now : ℕ) (l : Loop) → IsCounted n l → IsCounted n (sample now l)
unfolding sample
sample-IsCounted n now l h =
    let noted = note_speed-IsCounted n (speed_mbps l.total_bytes now) l h in
    let either =
      if_intro (IsCounted n) (ltb 0 now) (note_speed (speed_mbps l.total_bytes now) l) l noted h in
    if_intro (IsCounted n) (leb 100 (now - l.last_update)) _ _ either h

read_chunk-IsCounted :
    (n target : ℕ) (c : Chunk) (l : Loop) → IsCounted n l → IsCounted n (read_chunk target c l)
unfolding read_chunk
read_chunk-IsCounted n target c l (same, others, nothing, run, fair) =
    sample-IsCounted n c.now
      (record l {
        total_bytes = l.total_bytes + c.bytes;
        state = record l.state { bytes_downloaded = l.total_bytes + c.bytes };
      })
      (refl, others, nothing, run, fair)

read_body-IsCounted :
    (n target : ℕ) (cs : List Chunk) (l : Loop)
    → IsCounted n l
    → IsCounted n (read_body target cs l)
unfolding read_body
read_body-IsCounted n target [] l h = h
read_body-IsCounted n target (c ∷ cs) l h =
    read_body-IsCounted n target cs (read_chunk target c l) (read_chunk-IsCounted n target c l h)

receive-IsCounted :
    (n target : ℕ) (f : Fetched) (l : Loop) → IsCounted n l → IsCounted n (receive target f l).1
unfolding receive
receive-IsCounted n target no_response l h = h
receive-IsCounted n target (response false has_body cs broken) l h = h
receive-IsCounted n target (response true false cs broken) l h = h
receive-IsCounted n target (response true true cs broken) l h = read_body-IsCounted n target cs l h

abbrev pub ask-IsCounted :
    (n target : ℕ) (l : Loop) → l.total_bytes < target → IsCounted n l → IsCounted n (ask target l)
ask-IsCounted n target l lt (same, size, nothing, run, fair) =
    (same, size, nothing, run, (download_size-IsChunkSize target l.total_bytes lt, fair))

cancel_test-IsCounted :
    (n : ℕ) (l : Loop) → IsCounted n l → IsCounted n (record l { state = cancel_test l.state })
unfolding cancel_test
cancel_test-IsCounted n l h =
    if_intro (λ s. IsCounted n (record l { state = s })) (is_there l.state.controller) _ _ h h

round-IsCounted :
    (n target : ℕ) (r : Round) (l : Loop)
    → l.total_bytes < target
    → IsCounted n l
    → IsCounted n (round target r l).1
unfolding round
round-IsCounted n target r l lt h =
    if_intro (λ s. IsCounted n (ahead s).1) r.cancels _ _
      (next (cancel_test l.state) (cancel_test-IsCounted n l h)) (next l.state h)
  where
    ahead : DownloadState → Bool × Loop
    ahead s =
        if is_aborted s
        then (false, record l { state = s })
        else receive target r.fetched (ask target (record l { state = s }))

    next : (s : DownloadState) → IsCounted n (record l { state = s }) → IsCounted n (ahead s).1
    next s k =
        let m = record l { state = s } in
        if_intro (λ (x : Bool × Loop). IsCounted n x.1) (is_aborted s) _ _ k
          (receive-IsCounted n target r.fetched (ask target m) (ask-IsCounted n target m lt k))

-- The loop ends with a result only behind the target.
abbrev pub Reaches : ℕ → Exit → Loop → Type 0
Reaches target finished l = target ≤ l.total_bytes
Reaches target _ l = Unit

abbrev pub IsGood : ℕ → ℕ → Exit × Loop → Type 0
IsGood n target (e, l) = IsCounted n l × Reaches target e l

continue-IsGood :
    (n target : ℕ) (next : Loop → Exit × Loop)
    → ((m : Loop) → IsCounted n m → IsGood n target (next m))
    → (m : Bool × Loop) → IsCounted n m.1
    → IsGood n target (continue next m)
continue-IsGood n target next good (true, m) k = good m k
continue-IsGood n target next good (false, m) k = (k, tt)

pub loop-IsGood :
    (n target : ℕ) (rs : List Round) (l : Loop) → IsCounted n l → IsGood n target (loop target rs l)
unfolding loop
loop-IsGood n target [] l h = elim (Bool-cases (ltb l.total_bytes target)) [
  | inl e ↦ rw e (ask-IsCounted n target l (ground arith) h, tt)
  | inr e ↦ rw e (h, ground arith)
]
loop-IsGood n target (r ∷ rs) l h = elim (Bool-cases (ltb l.total_bytes target)) [
  | inl e ↦ rw e (
      continue-IsGood n target (λ m. loop target rs m) (loop-IsGood n target rs) (round target r l)
        (round-IsCounted n target r l (ground arith) h))
  | inr e ↦ rw e (h, ground arith)
]

-- Whatever the network answers and whenever the user cancels, every request of a test asks for one
-- to ten megabytes.
requests-IsChunkSize : (rs : List Round) (s : DownloadState) → All IsChunkSize (requests rs s)
requests-IsChunkSize rs s =
    (loop-IsGood s.selected_size (target_bytes s) rs (start s) (refl, refl, refl, refl, tt)).0.4

-- The ways in which a test stands: it waits, it has ended without a result, or it has ended with
-- one, and then at least the selected size was read.
pub data Outcome (n duration : ℕ) (s : DownloadState) : Type 0 where
  running : s.is_running ≡ true → s.result ≡ none → Outcome n duration s
  no_result : s.is_running ≡ false → s.controller ≡ none → s.result ≡ none → Outcome n duration s
  result_of :
      (r : DownloadResult)
      → s.is_running ≡ false
      → s.controller ≡ none
      → s.result ≡ some r
      → r.file_size ≡ n
      → r.average_speed ≡ compensate (speed_mbps s.bytes_downloaded duration)
      → n * 1048576 ≤ s.bytes_downloaded
      → Outcome n duration s

-- Whatever the network answers and whenever the user cancels, a test waits, or it has ended and
-- lets go of its controller; it has a result only when at least the selected size was read, and the
-- average speed is that of the bytes shown, with 4 % on top.
pub run_download_test-Outcome :
    (duration timestamp : ℕ) (rs : List Round) (s : DownloadState)
    → Outcome s.selected_size duration (run_download_test duration timestamp rs s)
unfolding run_download_test settle
run_download_test-Outcome duration timestamp rs s =
    by_exit (loop (target_bytes s) rs (start s))
      (loop-IsGood s.selected_size (target_bytes s) rs (start s) (refl, refl, refl, refl, tt))
  where
    by_exit :
        (x : Exit × Loop)
        → IsGood s.selected_size (target_bytes s) x
        → Outcome s.selected_size duration (settle duration timestamp x)
    by_exit (waiting, l) (((same, size, nothing, run, fair), reach)) = running run nothing
    by_exit (failed, l) (((same, size, nothing, run, fair), reach)) = no_result refl refl nothing
    by_exit (finished, l) (((same, size, nothing, run, fair), reach)) =
        result_of (final_result duration timestamp l) refl refl refl size
          (ap (λ b. compensate (speed_mbps b duration)) (sym same)) (ground (arith, same, reach))
