-- ===== src/Trace/View.antt =====
-- What webClient/frontend/src/components/TraceTest.tsx renders.
use Prim.Native.String.{String}
use text.Mathlib.Text.{◌==◌ as str_eq}
use waddle_perf.Common.{
  ℕ, suc, List, [], ◌∷◌, Bool, true, false, ◌||◌, if◌then◌else◌, Option, none, some, length,
}
use waddle_perf.Regex.{Text}
use waddle_perf.Js.Strings.{is_empty, trim}
use waddle_perf.Js.Number.{Number}
use waddle_perf.Trace.{TraceType, http, tcp, icmp, TraceResult, TraceState, is_icmp}

-- `formatHops`: a line is its number and its hop; `none` is "No route information available".
abbrev pub numbered : ℕ → List String → List (ℕ × String)
numbered n [] = []
numbered n (h ∷ hs) = (n, h) ∷ numbered (suc n) hs

unfoldable pub format_hops : Option (List String) → Option (List (ℕ × String))
format_hops none = none
format_hops (some []) = none
format_hops (some (h ∷ hs)) = some (numbered 1 (h ∷ hs))

-- An `input` by its `id`.
pub record Field : Type 0 where
  pub id : String
  pub value : Text
  pub placeholder : String
  pub disabled : Bool

-- The card of a result, and its report.
pub record Card : Type 0 where
  pub badge : String
  pub error : Option String
  pub target : String
  pub latency : Option Number
  pub hops : Option (List (ℕ × String))

pub record Report : Type 0 where
  pub target : String
  pub latency : Option Number
  pub status : String
  pub error : Option String
  pub total_hops : Option ℕ

pub record TraceView : Type 0 where
  pub error_box : Option String
  pub active : TraceType
  pub fields : List Field
  pub submit_label : String
  pub submit_disabled : Bool
  pub card : Option Card
  pub report : Option Report

abbrev pub or_text : String → String → String
or_text s fallback = if str_eq s "" then fallback else s

-- `x && …` for a text that may be missing.
abbrev pub shown : Option String → Option String
shown none = none
shown (some e) = if str_eq e "" then none else some e

abbrev pub status_of : TraceResult → String
status_of r = if r.success then "Success" else "Failed"

abbrev pub count_hops : Option (List String) → Option ℕ
count_hops none = none
count_hops (some []) = none
count_hops (some (h ∷ hs)) = some (length (h ∷ hs))

abbrev pub card_of : TraceResult → Card
card_of r = record {
  badge = status_of r;
  error = shown r.error;
  target = or_text r.target "N/A";
  latency = r.latency_ms;
  hops = format_hops r.hops;
}

abbrev pub report_of : TraceResult → Report
report_of r = record {
  target = or_text r.target "N/A";
  latency = r.latency_ms;
  status = status_of r;
  error = shown r.error;
  total_hops = count_hops r.hops;
}

abbrev pub target_placeholder : TraceType → String
target_placeholder http = "example.com or https://example.com"
target_placeholder icmp = "8.8.8.8 or example.com"
target_placeholder tcp = "hostname or IP address"

abbrev pub field : String → Text → String → Bool → Field
field id value placeholder disabled = record {
  id = id;
  value = value;
  placeholder = placeholder;
  disabled = disabled;
}

unfoldable pub fields_of : TraceState → List Field
fields_of s =
    field "target" s.target (target_placeholder s.test_type) s.is_running
    ∷ (if is_icmp s.test_type
        then field "timeout" s.timeout "" s.is_running ∷ []
        else field "port" s.port "Auto-detect" s.is_running
          ∷ field "timeout" s.timeout "" s.is_running
          ∷ [])

abbrev pub card_if : Option TraceResult → Option Card
card_if none = none
card_if (some r) = some (card_of r)

abbrev pub report_if : Bool → Option TraceResult → Option Report
report_if false o = none
report_if true none = none
report_if true (some r) = some (report_of r)

unfoldable pub view : TraceState → TraceView
unfolding fields_of
view s = record {
  error_box = if str_eq s.validation_error "" then none else some s.validation_error;
  active = s.test_type;
  fields = fields_of s;
  submit_label = if s.is_running then "Running Trace..." else "Start Trace";
  submit_disabled = s.is_running || is_empty (trim s.target);
  card = card_if s.result;
  report = report_if s.show_detailed_results s.result;
}

abbrev pub open_report : TraceState → TraceState
open_report s = record s { show_detailed_results = true }

abbrev pub close_report : TraceState → TraceState
close_report s = record s { show_detailed_results = false }
