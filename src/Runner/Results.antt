-- ===== src/Runner/Results.antt =====
-- What webClient/frontend/src/components/TestResults.tsx renders. `upper` and `lower` are the engine's
-- `toUpperCase` and `toLowerCase`.
use Prim.Native.String.{String}
use text.Mathlib.Text.{◌==◌ as str_eq}
use waddle_perf.Common.{ℕ, List, [], ◌∷◌, ◌++◌, ltb, if◌then◌else◌, Option, none, some}
use waddle_perf.Js.Number.{Number}
use waddle_perf.Runner.{RawResults, TestCompleteData, RunnerState, close_result, run_again}
use waddle_perf.Runner.Charts.{Written, write_fixed}

pub data Value : Type 0 where
  shown : String → Value
  number : Written → Value

pub record ResultCard : Type 0 where
  pub icon : String
  pub value : Value
  pub unit : Option String
  pub label : String

unfoldable pub get_metric_icon : (String → String) → String → String
get_metric_icon lower label =
    if str_eq (lower label) "latency"
    then "⚡"
    else if str_eq (lower label) "throughput"
    then "↕"
    else if str_eq (lower label) "jitter"
    then "~"
    else if str_eq (lower label) "packet loss"
    then "📦"
    else "•"

abbrev pub or_not_available : String → String
or_not_available t = if str_eq t "" then "N/A" else t

abbrev pub text_card : String → String → String → ResultCard
text_card icon value label = record {
  icon = icon;
  value = shown (or_not_available value);
  unit = none;
  label = label;
}

-- A metric has a card when it is neither undefined nor null.
abbrev pub card_if :
    (String → String) → String → String → String → ℕ → ℕ → Option Number → List ResultCard
card_if lower name unit label scale digits none = []
card_if lower name unit label scale digits (some x) =
    record {
      icon = get_metric_icon lower name;
      value = number (write_fixed scale digits x);
      unit = some unit;
      label = label;
    }
    ∷ []

pub record ResultsModal : Type 0 where
  pub status : String
  pub status_class : String
  pub error : Option String
  pub cards : List ResultCard
  pub raw : Option String
  pub buttons : List String

abbrev pub error_of : Option String → Option String
error_of none = none
error_of (some e) = if str_eq e "" then none else some e

abbrev pub raw_of : Option RawResults → Option String
raw_of none = none
raw_of (some r) = if ltb 0 r.keys then some r.json else none

unfoldable pub results_modal :
    (String → String) → (String → String) → TestCompleteData → ResultsModal
unfolding get_metric_icon
results_modal upper lower r = record {
  status = if r.success then "Success" else "Failed";
  status_class = if r.success then "success" else "error";
  error = error_of r.error;
  cards =
      text_card "📡" (upper r.test_type) "Test Type"
        ∷ text_card "🌐" r.target_host "Target Host"
        ∷ text_card "🔗" r.target_ip "Target IP"
        ∷ card_if lower "latency" "ms" "Latency" 100 2 r.latency_ms
      ++ (card_if lower "throughput" "Mbps" "Throughput" 100 2 r.throughput_mbps
          ++ (card_if lower "jitter" "ms" "Jitter" 100 2 r.jitter_ms
              ++ card_if lower "packet loss" "%" "Packet Loss" 10 1 r.packet_loss_percent));
  raw = raw_of r.raw_results;
  buttons = "Close" ∷ "Run Again" ∷ [];
}

-- The two buttons, and the click beside the modal, which closes it too.
unfoldable pub click_close : RunnerState → RunnerState
click_close s = close_result s

unfoldable pub click_run_again : RunnerState → RunnerState
click_run_again s = run_again (close_result s)
