-- ===== src/Stats/Dashboard.antt =====
-- The page managerServer/frontend/src/pages/Dashboard.tsx: one request when it is mounted, the
-- figures of the reply, and what it renders.
use Prim.Native.String.{String}
use waddle_perf.Common.{
  ℕ, ◌+◌, List, [], ◌∷◌, map, length, reverse, take, Bool, true, false, ltb, if◌then◌else◌, Option,
  none, some,
}
use waddle_perf.Pages.{error_text, non_empty}
use waddle_perf.Regex.{Text}
use waddle_perf.Stats.{
  TestResult, succeeded, has_latency, filter, latencies, Doubles, hundredths, round, success_share,
  unique_devices,
}
use waddle_perf.Stats.Screen.{Answer, found, failed}

-- `avg_latency` is in hundredths of a millisecond.
pub record Summary : Type 0 where
  pub total_tests : ℕ
  pub success_rate : ℕ
  pub avg_latency : ℕ
  pub devices : ℕ

pub record DashboardState : Type 0 where
  pub recent_tests : List TestResult
  pub loading : Bool
  pub error : String
  pub stats : Summary

-- Behind the effect that sends the request for 50 tests.
abbrev pub initial : DashboardState
initial = record {
  recent_tests = [];
  loading = true;
  error = "";
  stats = record { total_tests = 0; success_rate = 0; avg_latency = 0; devices = 0 };
}

unfoldable pub calculate_stats : Doubles → List TestResult → Summary
calculate_stats d ts = record {
  total_tests = length ts;
  success_rate = if ltb 0 (length ts) then round (success_share d ts) else 0;
  avg_latency = let ls = latencies ts in if ltb 0 (length ls) then hundredths d ls else 0;
  devices = length (unique_devices ts);
}

-- `loadDashboardData` behind its `await`.
unfoldable pub receive : Doubles → Answer → DashboardState → DashboardState
receive d (found results) s = record s {
  recent_tests = results;
  stats = calculate_stats d results;
  loading = false;
}
receive d (failed e) s = record s {
  error = error_text "Failed to load dashboard data" e;
  loading = false;
}

-- A point of the chart; its name is 'Test ' with the number.
pub record Point : Type 0 where
  pub number : ℕ
  pub latency : Option ℕ
  pub timestamp : String

abbrev pub points : (String → String) → ℕ → List TestResult → List Point
points local_time i [] = []
points local_time i (t ∷ ts) =
    record { number = i + 1; latency = t.latency; timestamp = local_time t.created_at }
    ∷ points local_time (i + 1) ts

unfoldable pub prepare_chart_data : (String → String) → List TestResult → List Point
prepare_chart_data local_time ts = points local_time 0 (reverse (take 20 (filter has_latency ts)))

pub record Row : Type 0 where
  pub device : Text
  pub test_type : Text
  pub latency : Option ℕ
  pub success : Bool
  pub timestamp : String

abbrev pub row : (String → String) → TestResult → Row
row local_date_time t = record {
  device = t.device_serial;
  test_type = t.test_type;
  latency = t.latency;
  success = succeeded t;
  timestamp = local_date_time t.created_at;
}

pub record Content : Type 0 where
  pub error : Option String
  pub cards : Summary
  pub chart : List Point
  pub rows : List Row

module _ (local_time local_date_time : String → String) where
  -- Nothing but the spinner while the page is loading.
  unfoldable pub view : DashboardState → Option Content
  unfolding prepare_chart_data
  view s =
      if s.loading
      then none
      else some (record {
        error = non_empty (some s.error);
        cards = s.stats;
        chart = prepare_chart_data local_time s.recent_tests;
        rows = map (row local_date_time) (take 10 s.recent_tests);
      })
