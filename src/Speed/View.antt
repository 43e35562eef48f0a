-- ===== src/Speed/View.antt =====
-- What webClient/frontend/src/components/SpeedTest.tsx renders. Its `formatSpeed` is the one of the
-- download test.
use Prim.Native.String.{String}
use waddle_perf.Common.{ℕ, ◌*◌, Bool, true, false, not, ◌&&◌, if◌then◌else◌, Option, none, some}
use waddle_perf.Download.{Quot}
use waddle_perf.Download.View.{Speed, Fixed, to_fixed, format_speed}
use waddle_perf.Speed.State.{
  SpeedTestResult, CurrentPhase, idle, latency_phase, download_phase, upload_phase, SpeedState,
}

-- The class of an item of the phase indicator.
pub data Mark : Type 0 where
  plain active completed : Mark

pub record Idle : Type 0 where
  pub num_streams : ℕ
  pub server_name : Option String

pub data Display : Type 0 where
  no_display : Display
  latency_display : Fixed → Display
  speed_display : (label : String) → Speed → Display

pub record Running : Type 0 where
  pub latency_mark : Mark
  pub download_mark : Mark
  pub upload_mark : Mark
  pub display : Display
  pub width : Quot

pub record Results : Type 0 where
  pub download : Speed
  pub upload : Speed
  pub ping : Fixed
  pub jitter : Fixed
  pub timestamp : ℕ

-- `again` is the button "Run Another Test".
pub record SpeedView : Type 0 where
  pub idle_section : Option Idle
  pub running : Option Running
  pub again : Bool
  pub results : Option Results

abbrev pub has_result : Option SpeedTestResult → Bool
has_result none = false
has_result (some r) = true

abbrev pub completed_if : Bool → Mark
completed_if b = if b then completed else plain

unfoldable pub latency_mark : CurrentPhase → Mark
latency_mark latency_phase = active
latency_mark idle = plain
latency_mark _ = completed

unfoldable pub download_mark : CurrentPhase → Bool → Mark
download_mark download_phase done = active
download_mark upload_phase done = completed
download_mark _ done = completed_if done

unfoldable pub upload_mark : CurrentPhase → Bool → Mark
upload_mark upload_phase done = active
upload_mark _ done = completed_if done

-- Microseconds in milliseconds.
abbrev pub in_ms : Quot → Quot
in_ms q = record { num = q.num; den = q.den * 1000 }

unfoldable pub display_of : CurrentPhase → SpeedState → Display
display_of idle s = no_display
display_of latency_phase s = latency_display (to_fixed (record { num = s.latency; den = 1000 }) 1 0)
display_of download_phase s = speed_display "Download" (format_speed s.current_speed)
display_of upload_phase s = speed_display "Upload" (format_speed s.current_speed)

abbrev pub running_section : SpeedState → Running
running_section s = record {
  latency_mark = latency_mark s.current_phase;
  download_mark = download_mark s.current_phase (has_result s.result);
  upload_mark = upload_mark s.current_phase (has_result s.result);
  display = display_of s.current_phase s;
  width = s.progress;
}

abbrev pub results_of : Option SpeedTestResult → Option Results
results_of none = none
results_of (some r) = some (record {
  download = format_speed r.download;
  upload = format_speed r.upload;
  ping = to_fixed (in_ms r.latency.ping) 1 0;
  jitter = to_fixed (in_ms r.latency.jitter) 10 1;
  timestamp = r.timestamp;
})

unfoldable pub view : Option String → SpeedState → SpeedView
view server_name s = record {
  idle_section =
      if not s.is_running && not (has_result s.result)
      then some (record { num_streams = s.num_streams; server_name = server_name })
      else none;
  running = if s.is_running then some (running_section s) else none;
  again = not s.is_running && not (has_result s.result);
  results = if s.is_running then none else results_of s.result;
}

abbrev pub set_streams : ℕ → SpeedState → SpeedState
set_streams n s = record s { num_streams = n }

abbrev pub close : SpeedState → SpeedState
close s = record s { result = none }
