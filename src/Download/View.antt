-- ===== src/Download/View.antt =====
-- What webClient/frontend/src/components/DownloadTest.tsx renders, and how it writes speeds, sizes
-- and durations. What `toFixed` writes is a whole number and where its point stands.
use waddle_perf.Common.{
  ℕ, ◌+◌, ◌*◌, ◌/◌, ◌%◌, ◌≤◌, ◌<◌, List, map, Bool, true, false, not, ◌&&◌, ltb, ◌==◌,
  if◌then◌else◌, Option, none, some, ◌≡◌, refl, arith,
}
use waddle_perf.Download.{
  Quot, DownloadResult, DownloadState, mega, file_size_options, Round, run_download_test,
}

-- `scaled` in units of 10 ^ -`digits`.
pub record Fixed : Type 0 where
  pub scaled : ℕ
  pub digits : ℕ

-- `scale` is 10 ^ `digits`; a tie goes up.
abbrev pub to_fixed : Quot → ℕ → ℕ → Fixed
to_fixed q scale digits = record {
  scaled = (q.num * scale * 2 + q.den) / (q.den * 2);
  digits = digits;
}

-- `seconds.toFixed(1)`, or minutes and seconds.
pub data Duration : Type 0 where
  short : Fixed → Duration
  long : (minutes seconds : ℕ) → Duration

-- A duration is a number of milliseconds here.
unfoldable pub format_duration : ℕ → Duration
format_duration ms =
    if ltb ms 60000
    then short (to_fixed (record { num = ms; den = 1000 }) 10 1)
    else long (ms / 60000) (ms % 60000 / 1000)

-- `infinite` is a speed of some bytes in no time; no bytes in no time do not occur.
pub data Speed : Type 0 where
  zero_speed infinite : Speed
  mbps : Fixed → Speed

unfoldable pub format_speed : Quot → Speed
format_speed q =
    if q.num == 0
    then zero_speed
    else if q.den == 0
    then infinite
    else if ltb q.num q.den
    then mbps (to_fixed q 100 2)
    else if ltb q.num (10 * q.den)
    then mbps (to_fixed q 10 1)
    else mbps (to_fixed q 1 0)

pub data Size : Type 0 where
  zero_size : Size
  kb mb gb : Fixed → Size

unfoldable pub format_bytes : ℕ → Size
format_bytes bytes =
    if bytes == 0
    then zero_size
    else if ltb bytes mega
    then kb (to_fixed (record { num = bytes; den = 1024 }) 10 1)
    else if ltb bytes (1000 * mega)
    then mb (to_fixed (record { num = bytes; den = mega }) 10 1)
    else gb (to_fixed (record { num = bytes; den = mega * 1024 }) 100 2)

pub record Idle : Type 0 where
  pub options : List (ℕ × Bool)
  pub announced_size : ℕ

pub record Running : Type 0 where
  pub speed : Speed
  pub downloaded : Size
  pub peak : Speed
  pub width : Quot
  pub share : Fixed

pub record Results : Type 0 where
  pub average : Speed
  pub peak : Speed
  pub file_size : ℕ
  pub duration : Duration
  pub timestamp : ℕ

pub record DownloadView : Type 0 where
  pub idle : Option Idle
  pub running : Option Running
  pub results : Option Results

abbrev pub is_there : Option DownloadResult → Bool
is_there none = false
is_there (some r) = true

abbrev pub idle_section : DownloadState → Idle
idle_section s = record {
  options = map (λ value. (value, s.selected_size == value)) file_size_options;
  announced_size = s.selected_size;
}

abbrev pub running_section : DownloadState → Running
running_section s = record {
  speed = format_speed s.current_speed;
  downloaded = format_bytes s.bytes_downloaded;
  peak = format_speed s.peak_speed;
  width = s.progress;
  share = to_fixed s.progress 1 0;
}

abbrev pub results_modal : Option DownloadResult → Option Results
results_modal none = none
results_modal (some r) = some (record {
  average = format_speed r.average_speed;
  peak = format_speed r.peak_speed;
  file_size = r.file_size;
  duration = format_duration r.duration.num;
  timestamp = r.timestamp;
})

unfoldable pub view : DownloadState → DownloadView
view s = record {
  idle = if not s.is_running && not (is_there s.result) then some (idle_section s) else none;
  running = if s.is_running then some (running_section s) else none;
  results = if s.is_running then none else results_modal s.result;
}

abbrev pub select_size : ℕ → DownloadState → DownloadState
select_size value s = record s { selected_size = value }

abbrev pub close : DownloadState → DownloadState
close s = record s { result = none }

-- "Run Again"
abbrev pub run_again : ℕ → ℕ → List Round → DownloadState → DownloadState
run_again duration timestamp rounds s = run_download_test duration timestamp rounds (close s)

-- From one minute on, the minutes and the seconds shown are the whole seconds of the duration, and
-- there are fewer than sixty seconds.
format_duration-long :
    (ms : ℕ)
    → 60000 ≤ ms
    → (m : ℕ) × (s : ℕ) × (format_duration ms ≡ long m s) × (s < 60) × (m * 60 + s ≡ ms / 1000)
unfolding format_duration
format_duration-long ms le =
    let not_short : ltb ms 60000 ≡ false = ground arith in
    (ms / 60000, ms % 60000 / 1000, rw not_short refl, omega arith, omega arith)
