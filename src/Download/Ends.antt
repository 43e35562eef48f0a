-- ===== src/Download/Ends.antt =====
-- Whether the loop of requests in webClient/frontend/src/components/DownloadTest.tsx ends, when
-- every request is answered and the user does not cancel.
use waddle_perf.Common.{
  ℕ, suc, ◌*◌, ◌≤◌, ◌<◌, List, map, none, some, ◌≡◌, refl, ◌∙◌, arith, All, length,
}
use waddle_perf.Download.{
  DownloadResult, DownloadState, chunk_size_mb, mega, Chunk, Loop, Exit, finished, failed, waiting,
  loop, start, settle, target_bytes, run_download_test, requests, final_result,
}
use waddle_perf.Download.Bounds.{loop-IsGood}
use waddle_perf.Download.Reading.{served, size, size_all, loop-finished, loop-waiting, loop-IsExact}

-- When every request is answered in full, with any split into chunks and any sizes, a test that
-- gets at least the selected size ends with a result.
pub run_download_test-served :
    (duration timestamp : ℕ) (css : List (List Chunk)) (s : DownloadState)
    → target_bytes s ≤ size_all css
    → (r : DownloadResult) × ((run_download_test duration timestamp (map served css) s).result
        ≡ some r)
unfolding run_download_test settle
run_download_test-served duration timestamp css s le =
    by_exit (loop (target_bytes s) (map served css) (start s))
      (loop-finished (target_bytes s) css (start s) refl (omega (arith, le)))
  where
    by_exit :
        (x : Exit × Loop)
        → x.0 ≡ finished
        → (r : DownloadResult) × ((settle duration timestamp x).result ≡ some r)
    by_exit (finished, l) e = (final_result duration timestamp l, refl)
    by_exit (failed, l) e = cc
    by_exit (waiting, l) e = cc

-- A server that answers every request with an empty body keeps a test of a size above zero asking:
-- after any number of answers it still waits, with one request more.
requests_unbounded :
    (duration timestamp : ℕ) (css : List (List Chunk)) (s : DownloadState)
    → 0 < s.selected_size
    → size_all css ≡ 0
    → ((run_download_test duration timestamp (map served css) s).result ≡ none)
      × (length (requests (map served css) s) ≡ suc (length css))
unfolding run_download_test settle
requests_unbounded duration timestamp css s lt empty =
    let good =
      loop-IsGood s.selected_size (target_bytes s) (map served css) (start s)
        (refl, refl, refl, refl, tt) in
    let (waits, count) =
      loop-waiting (target_bytes s) css (start s) refl empty (omega (arith, lt)) in
    (by_exit (loop (target_bytes s) (map served css) (start s)) waits good.0.2, count ∙ omega arith)
  where
    by_exit :
        (x : Exit × Loop)
        → x.0 ≡ waiting
        → x.1.state.result ≡ none
        → (settle duration timestamp x).result ≡ none
    by_exit (waiting, l) e nothing = nothing
    by_exit (failed, l) e nothing = nothing
    by_exit (finished, l) e nothing = cc

-- A server that sends exactly the megabytes asked for: a test of 10 n megabytes makes n requests of
-- ten megabytes each, and reads exactly the selected size.
pub requests-exact :
    (n duration timestamp : ℕ) (css : List (List Chunk)) (s : DownloadState)
    → s.selected_size ≡ n * chunk_size_mb
    → length css ≡ n
    → All (λ cs. size cs ≡ chunk_size_mb * mega) css
    → All (λ k. k ≡ chunk_size_mb) (requests (map served css) s)
      × (length (requests (map served css) s) ≡ n)
      × ((run_download_test duration timestamp (map served css) s).bytes_downloaded
          ≡ target_bytes s)
unfolding run_download_test settle
requests-exact n duration timestamp css s e len full =
    let rounds = map served css in
    let good =
      loop-IsGood s.selected_size (target_bytes s) rounds (start s) (refl, refl, refl, refl, tt) in
    let (total, tens, count) =
      loop-IsExact (target_bytes s) css (start s) refl full (omega (arith, e, len)) tt in
    (
      tens,
      count ∙ omega (arith, len),
      shown (loop (target_bytes s) rounds (start s)) ∙ good.0.0 ∙ total,
    )
  where
    shown :
        (x : Exit × Loop)
        → (settle duration timestamp x).bytes_downloaded ≡ x.1.state.bytes_downloaded
    shown (waiting, l) = refl
    shown (failed, l) = refl
    shown (finished, l) = refl
