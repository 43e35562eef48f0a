-- ===== src/Trace/Export.antt =====
-- The details of a trace in webClient/frontend/src/components/TraceTest.tsx: what the report shows of
-- them, and the file that "Download" saves. `stringify` is `JSON.stringify(…, null, 2)` of a result.
use Prim.Native.String.{String}
use text.Mathlib.Text.{◌==◌ as str_eq}
use waddle_perf.Common.{true, ltb, if◌then◌else◌, Option, none, some, ◌≡◌, refl, ◌<◌, arith}
use waddle_perf.Runner.{RawResults}
use waddle_perf.Trace.{TraceResult}

-- A result with its raw results.
pub record Detailed : Type 0 where
  pub result : TraceResult
  pub raw_results : Option RawResults

-- The name of the file is 'trace-results-', the target, '-', the time and '.json'.
pub record File : Type 0 where
  pub target : String
  pub timestamp : String
  pub content : String

module _ (stringify : TraceResult → String) where
  abbrev pub shown_if : TraceResult → Option RawResults → String
  shown_if r none = stringify r
  shown_if r (some raw) = if ltb 0 raw.keys then raw.json else stringify r

  -- "Detailed Results"
  unfoldable pub shown_details : Detailed → String
  shown_details d = shown_if d.result d.raw_results

  -- `result.raw_results || result`
  abbrev pub saved_if : TraceResult → Option RawResults → String
  saved_if r none = stringify r
  saved_if r (some raw) = raw.json

  abbrev pub or_unknown : String → String
  or_unknown target = if str_eq target "" then "unknown" else target

  -- `now` is the time as `toISOString` writes it; nothing is saved without a result.
  unfoldable pub download_detailed_results : String → Option Detailed → Option File
  download_detailed_results now none = none
  download_detailed_results now (some d) = some (record {
    target = or_unknown d.result.target;
    timestamp = now;
    content = saved_if d.result d.raw_results;
  })

abbrev Holds : Option RawResults → Type 0
Holds none = Unit
Holds (some raw) = 0 < raw.keys

content_of : Option File → Option String
content_of none = none
content_of (some f) = some f.content

-- The file holds what the report shows, where raw results that are there have a key.
download_detailed_results-shown :
    (stringify : TraceResult → String) (now : String) (r : TraceResult) (o : Option RawResults)
    → Holds o
    → content_of
        (download_detailed_results stringify now (some (record { result = r; raw_results = o })))
      ≡ some (shown_details stringify (record { result = r; raw_results = o }))
unfolding download_detailed_results shown_details content_of
download_detailed_results-shown stringify now r none h = refl
download_detailed_results-shown stringify now r (some raw) h =
    let keys : ltb 0 raw.keys ≡ true = ground arith in rw keys refl
