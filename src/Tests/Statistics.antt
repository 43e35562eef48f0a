-- ===== src/Tests/Statistics.antt =====
-- Runs of managerServer/frontend/src/pages/Statistics.tsx and Dashboard.tsx at fixed inputs.
use Prim.Native.String.{String}
use mathlib.Core.List.Perm
use waddle_perf.Common.{
  ℕ, List, [], ◌∷◌, map, Bool, true, false, Option, none, some, ◌≡◌, refl, ◌+◌, ◌*◌, arith,
}
use waddle_perf.Regex.{Text}
use waddle_perf.Js.Strings.{codes, text_eq}
use waddle_perf.Stats.Counts.{number, text, member, tally, bump, get, insert, replace, precedes}
use waddle_perf.Stats.{
  TestResult, Doubles, prepare_device_chart, device_counts, calculate_avg_latency, average,
  latencies,
}
use waddle_perf.Stats.Laws.{HasTopTen, prepare_device_chart-IsTopTen, Agree, calculate_stats-Agree}
use waddle_perf.Stats.Screen.{
  StatisticsState, Answer, found, initial, Event, choose_limit, refresh, replied,
}
use waddle_perf.Stats.Order.{counted, calculate_stats-perm}

abbrev result : String → String → Option ℕ → Option Bool → TestResult
result device type latency success = record {
  id = 1;
  device_serial = codes device;
  test_type = codes type;
  created_at = "2024-01-01";
  latency = latency;
  bandwidth = none;
  success = success;
}

abbrev sample : List TestResult
sample =
    result "ann" "icmp" (some 2005) none
    ∷ result "7" "http" none (some false)
    ∷ result "ann" "http" (some 1000) (some true)
    ∷ []

-- What an engine makes of an inherited function, in short.
abbrev engine : Text → Text
engine k = codes "function"

-- The name of a function is no number.
count_of-constructor :
    tally engine (codes "constructor" ∷ codes "constructor" ∷ codes "__proto__" ∷ [])
    ≡ record { name = codes "constructor"; count = text (codes "function11") } ∷ []
unfolding tally bump get insert replace precedes text_eq member
count_of-constructor = refl

-- Exact fractions.
abbrev exact : Doubles
exact = record {
  of_micros = λ n. record { num = n; den = 1000 };
  plus = λ p q. record { num = p.num * q.den + q.num * p.den; den = p.den * q.den };
  over = λ q n. record { num = q.num; den = q.den * n };
  times_100 = λ q. record { num = q.num * 100; den = q.den };
  finite = λ part whole pos. omega arith;
}

-- An array index stands before the names.
device_counts-sample :
    device_counts engine sample
    ≡ record { name = codes "7"; count = number 1 }
      ∷ record { name = codes "ann"; count = number 2 }
      ∷ []
unfolding tally bump get insert replace precedes text_eq member
device_counts-sample = refl

-- 1.5025 ms is shown as 1.5 ms.
avg_sample : calculate_avg_latency exact sample ≡ 150
unfolding calculate_avg_latency average latencies
avg_sample = refl

prepare_device_chart-IsTopTen_example :
    HasTopTen
      (map (λ (t : TestResult). t.device_serial) sample)
      (device_counts engine sample)
      (prepare_device_chart engine sample)
unfolding member text_eq
prepare_device_chart-IsTopTen_example =
    prepare_device_chart-IsTopTen engine sample (refl, (refl, (refl, tt)))

calculate_stats-Agree_example : Agree exact sample
calculate_stats-Agree_example = calculate_stats-Agree exact sample

abbrev answer_by_limit : ℕ → Answer
answer_by_limit n = found sample

abbrev failing : StatisticsState
failing = record initial { error = "Failed to load statistics" }

abbrev clicks : List Event
clicks = choose_limit 50 ∷ replied 0 ∷ refresh ∷ replied 1 ∷ []

abbrev swapped : List TestResult
swapped =
    result "7" "http" none (some false)
    ∷ result "ann" "icmp" (some 2005) none
    ∷ result "ann" "http" (some 1000) (some true)
    ∷ []

calculate_stats-perm_example : counted exact sample ≡ counted exact swapped
calculate_stats-perm_example = calculate_stats-perm exact sample swapped (Perm.swap _ _ _)
