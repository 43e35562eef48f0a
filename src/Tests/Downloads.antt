-- ===== src/Tests/Downloads.antt =====
-- Runs of webClient/frontend/src/components/DownloadTest.tsx at fixed inputs.
use waddle_perf.Common.{List, [], ◌∷◌, true, some, ◌≡◌, refl, arith, All, length}
use waddle_perf.Download.{
  DownloadResult, DownloadState, initial, chunk_size_mb, Chunk, Round, no_response,
  run_download_test, requests, target_bytes,
}
use waddle_perf.Download.Bounds.{Outcome, run_download_test-Outcome}
use waddle_perf.Download.Reading.{served}
use waddle_perf.Download.Ends.{run_download_test-served, requests-exact}

-- Ten megabytes are chosen, and come in two chunks.
abbrev small : DownloadState
small = record initial { selected_size = 10 }

abbrev ten : List Chunk
ten = record { bytes = 485760; now = 40 } ∷ record { bytes = 10000000; now = 250 } ∷ []

abbrev cancelled : List Round
cancelled =
    served (record { bytes = 4; now = 3 } ∷ [])
    ∷ record { cancels = true; fetched = no_response }
    ∷ []

run_download_test-Outcome_example : Outcome 10 250 (run_download_test 250 9 (served ten ∷ []) small)
run_download_test-Outcome_example = run_download_test-Outcome 250 9 (served ten ∷ []) small

run_download_test-served_example :
    (r : DownloadResult) × ((run_download_test 250 9 (served ten ∷ []) small).result ≡ some r)
run_download_test-served_example = run_download_test-served 250 9 (ten ∷ []) small (omega arith)

requests-exact_example :
    All (λ k. k ≡ chunk_size_mb) (requests (served ten ∷ []) small)
    × (length (requests (served ten ∷ []) small) ≡ 1)
    × ((run_download_test 250 9 (served ten ∷ []) small).bytes_downloaded ≡ target_bytes small)
requests-exact_example = requests-exact 1 250 9 (ten ∷ []) small refl refl (refl, tt)
