-- ===== src/Stats/Screen.antt =====
-- The state of the page managerServer/frontend/src/pages/Statistics.tsx, its events, and what it
-- renders. What the server answers is a function of the limit that a request asks for; `local_time`
-- and `local_date_time` are the engine's `toLocaleTimeString` and `toLocaleString` of a date.
use Prim.Native.String.{String}
use waddle_perf.Common.{
  at, ℕ, List, [], ◌∷◌, ◌++◌, map, length, take, Bool, true, false, ◌==◌, if◌then◌else◌, Option,
  none, some,
}
use waddle_perf.Pages.{error_text, non_empty}
use waddle_perf.Regex.{Text}
use waddle_perf.Download.View.{Fixed}
use waddle_perf.Stats.Counts.{Count, Entry}
use waddle_perf.Stats.{
  TestResult, Doubles, succeeded, filtered_tests, calculate_avg_latency, calculate_success_rate,
  unique_devices, unique_test_types, Point, prepare_latency_chart, prepare_test_type_chart,
  prepare_device_chart,
}

pub data Answer : Type 0 where
  found : (results : List TestResult) → Answer
  failed : (error : Option String) → Answer

-- `requests` are the limits that were asked for so far, the first one first.
pub record StatisticsState : Type 0 where
  pub tests : List TestResult
  pub loading : Bool
  pub error : String
  pub device_filter : Text
  pub test_type_filter : Text
  pub limit : ℕ
  pub requests : List ℕ

-- `loadStatistics` up to its `await`; the effect calls it behind the first render and each change of
-- the limit.
unfoldable pub load_statistics : StatisticsState → StatisticsState
load_statistics s = record s { loading = true; requests = s.requests ++ s.limit ∷ [] }

abbrev pub initial : StatisticsState
initial = record {
  tests = [];
  loading = true;
  error = "";
  device_filter = [];
  test_type_filter = [];
  limit = 100;
  requests = [];
}

-- `loadStatistics` behind its `await`.
unfoldable pub receive : Answer → StatisticsState → StatisticsState
receive (found results) s = record s { tests = results; loading = false }
receive (failed e) s = record s {
  error = error_text "Failed to load statistics" e;
  loading = false;
}

-- `replied i` is the reply to the request in place `i`; `refresh` is the button.
pub data Event : Type 0 where
  edit_device edit_type : Text → Event
  choose_limit : ℕ → Event
  refresh : Event
  replied : ℕ → Event

module _ (serve : ℕ → Answer) where
  abbrev pub receive_at : Option ℕ → StatisticsState → StatisticsState
  receive_at none s = s
  receive_at (some n) s = receive (serve n) s

  unfoldable pub step : Event → StatisticsState → StatisticsState
  unfolding load_statistics
  step (edit_device value) s = record s { device_filter = value }
  step (edit_type value) s = record s { test_type_filter = value }
  step (choose_limit n) s = if s.limit == n then s else load_statistics (record s { limit = n })
  step refresh s = load_statistics s
  step (replied i) s = receive_at (at i s.requests) s

  abbrev pub run : List Event → StatisticsState → StatisticsState
  run [] s = s
  run (e ∷ es) s = run es (step e s)

-- A row of the table; no latency and no bandwidth are 'N/A'.
pub record Row : Type 0 where
  pub id : ℕ
  pub device : Text
  pub test_type : Text
  pub latency : Option ℕ
  pub bandwidth : Option ℕ
  pub success : Bool
  pub timestamp : String

abbrev pub row : (String → String) → TestResult → Row
row local_date_time t = record {
  id = t.id;
  device = t.device_serial;
  test_type = t.test_type;
  latency = t.latency;
  bandwidth = t.bandwidth;
  success = succeeded t;
  timestamp = local_date_time t.created_at;
}

-- A chart without data is the paragraph that says so.
pub record Content : Type 0 where
  pub total_tests : ℕ
  pub success_rate : Fixed
  pub avg_latency : ℕ
  pub device_total : ℕ
  pub latency_chart : List Point
  pub type_chart : List (Entry Count)
  pub device_chart : List (Entry Count)
  pub table_size : ℕ
  pub rows : List Row

-- The options of the limit.
abbrev pub limits : List ℕ
limits = 50 ∷ 100 ∷ 200 ∷ 500 ∷ []

-- `test_types` are the options below "All Types"; `content` is missing while the page is loading.
pub record StatisticsView : Type 0 where
  pub device_filter : Text
  pub test_type_filter : Text
  pub limit : ℕ
  pub limit_options : List ℕ
  pub test_types : List Text
  pub error : Option String
  pub content : Option Content

module _ (doubles : Doubles) (inherited_text : Text → Text)
    (local_time local_date_time : String → String) where
  unfoldable pub content_of : StatisticsState → Content
  unfolding filtered_tests
  content_of s =
      let ts = filtered_tests s.device_filter s.test_type_filter s.tests in
      record {
        total_tests = length ts;
        success_rate = calculate_success_rate doubles ts;
        avg_latency = calculate_avg_latency doubles ts;
        device_total = length (unique_devices s.tests);
        latency_chart = prepare_latency_chart local_time ts;
        type_chart = prepare_test_type_chart inherited_text ts;
        device_chart = prepare_device_chart inherited_text ts;
        table_size = length ts;
        rows = map (row local_date_time) (take 20 ts);
      }

  unfoldable pub view : StatisticsState → StatisticsView
  view s = record {
    device_filter = s.device_filter;
    test_type_filter = s.test_type_filter;
    limit = s.limit;
    limit_options = limits;
    test_types = unique_test_types s.tests;
    error = non_empty (some s.error);
    content = if s.loading then none else some (content_of s);
  }
