-- ===== src/Runner/View.antt =====
-- What the page of webClient/frontend/src/components/TestRunner.tsx shows.
use Prim.Native.String.{String}
use waddle_perf.Common.{
  List, [], ◌∷◌, Bool, true, false, not, ◌&&◌, ◌||◌, if◌then◌else◌, Option, none, some, ◌≡◌, arith,
}
use waddle_perf.Js.Number.{Number}
use waddle_perf.Http.{Client, Reply, Outcome, resolved, rejected, pending, Run}
use waddle_perf.WebApi
use waddle_perf.Runner.{
  Tab, tests, speedtest, download, trace, RunnerState, TestCompleteData, LatencyDataPoint, Metrics,
}

pub record WebUser : Type 0 where
  pub username : String
  pub role : String

-- The parts of the tab "Network Tests".
pub record TestsTab : Type 0 where
  pub form_running : Bool
  pub progress : Option Number
  pub charts : Option (List LatencyDataPoint × Metrics)
  pub results : Option TestCompleteData
  pub welcome : Bool

pub data Content : Type 0 where
  tests_tab : TestsTab → Content
  speed_test download_test : Content
  trace_test : (is_authenticated : Bool) → Content

pub record RunnerView : Type 0 where
  pub status : String
  pub user_menu : Option String
  pub active : Tab
  pub content : Content

abbrev pub is_none : Option TestCompleteData → Bool
is_none none = true
is_none (some result) = false

abbrev pub is_nil : List LatencyDataPoint → Bool
is_nil [] = true
is_nil (p ∷ ps) = false

unfoldable pub tests_view : RunnerState → TestsTab
tests_view s = record {
  form_running = s.is_running_test;
  progress = if s.is_running_test then some s.test_progress else none;
  charts =
      if s.is_running_test || not (is_nil s.latency_data)
      then some (s.latency_data, s.current_metrics)
      else none;
  results = if s.is_running_test then none else s.test_result;
  welcome = not s.is_running_test && is_none s.test_result && is_nil s.latency_data;
}

abbrev pub is_user : Option WebUser → Bool
is_user none = false
is_user (some user) = true

unfoldable pub content_of : Option WebUser → RunnerState → Content
unfolding tests_view
content_of user s = elim s.active_tab [
  | tests ↦ tests_tab (tests_view s)
  | speedtest ↦ speed_test
  | download ↦ download_test
  | trace ↦ trace_test (is_user user)
]

abbrev pub user_menu : Bool → Option WebUser → Option String
user_menu false user = none
user_menu true none = none
user_menu true (some user) = some user.username

unfoldable pub view : Bool → Option WebUser → RunnerState → RunnerView
unfolding content_of
view auth_enabled user s = record {
  status = if s.ws_connected then "Connected" else "Disconnected";
  user_menu = user_menu auth_enabled user;
  active = s.active_tab;
  content = content_of user s;
}

-- `handleLogout`: whether `onLogout` has been called.
abbrev pub calls_on_logout : Outcome → Bool
calls_on_logout (resolved body) = true
calls_on_logout (rejected f) = true
calls_on_logout pending = false

unfoldable pub handle_logout : Client → List Reply → Bool × Run
handle_logout c replies = let ran = WebApi.logout c replies in (calls_on_logout ran.1, ran)

abbrev pub is_there : {A : Type 0} → Option A → Bool
is_there none = false
is_there (some x) = true

-- The welcome stands on the tab "Network Tests" exactly when progress, charts and results do not.
tests_view-welcome :
    (s : RunnerState)
    → (tests_view s).welcome
      ≡ not (
          is_there (tests_view s).progress
          || is_there (tests_view s).charts
          || is_there (tests_view s).results)
unfolding tests_view
tests_view-welcome s = ground arith
