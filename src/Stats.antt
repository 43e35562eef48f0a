-- ===== src/Stats.antt =====
-- The pages managerServer/frontend/src/pages/Statistics.tsx and Dashboard.tsx: the figures that
-- they compute of the test results. A latency is kept as a number of microseconds; the double that it
-- is, and all that is computed of it, comes from the arithmetic `Doubles`. `local_time` is the
-- engine's `toLocaleTimeString` of a date, and `inherited_text` as in Stats/Counts.
pub mod Counts
pub mod Plain
pub mod Tallies
pub mod Sorting
pub mod Sets
pub mod Screen
pub mod Laws
pub mod Dashboard
pub mod Errors
pub mod Order
use Prim.Native.String.{String}
use waddle_perf.Common.{
  ℕ, zero, suc, ◌+◌, ◌-◌, ◌*◌, ◌/◌, ◌<◌, List, [], ◌∷◌, ◌++◌, map, reverse, length, take, drop,
  Bool, true, false, not, ◌&&◌, ◌||◌, ◌==◌, ltb, if◌then◌else◌, Option, none, some,
}
use waddle_perf.Regex.{Text}
use waddle_perf.Js.Strings.{text_eq, is_empty, includes}
use waddle_perf.Download.{Quot}
use waddle_perf.Download.View.{Fixed, to_fixed}
use waddle_perf.Stats.Counts.{Count, Entry, tally, by_count, unique}

pub record TestResult : Type 0 where
  pub id : ℕ
  pub device_serial : Text
  pub test_type : Text
  pub created_at : String
  pub latency : Option ℕ
  pub bandwidth : Option ℕ
  pub success : Option Bool

-- `t.success !== false`
abbrev pub succeeded : TestResult → Bool
succeeded t = elim t.success [ none ↦ true | some b ↦ b ]

abbrev pub keep_if : Bool → TestResult → List TestResult → List TestResult
keep_if true t ts = t ∷ ts
keep_if false t ts = ts

abbrev pub filter : (TestResult → Bool) → List TestResult → List TestResult
filter p [] = []
filter p (t ∷ ts) = keep_if (p t) t (filter p ts)

-- `!filter || …`, of the device's serial number and of the type.
abbrev pub matches : Text → Text → TestResult → Bool
matches device_filter type_filter t =
    (is_empty device_filter || includes t.device_serial device_filter)
    && (is_empty type_filter || text_eq t.test_type type_filter)

unfoldable pub filtered_tests : Text → Text → List TestResult → List TestResult
filtered_tests device_filter type_filter ts = filter (matches device_filter type_filter) ts

-- `t.latency != null`
abbrev pub has_latency : TestResult → Bool
has_latency t = elim t.latency [ none ↦ false | some l ↦ true ]

abbrev pub latency_of : TestResult → ℕ
latency_of t = elim t.latency [ none ↦ 0 | some l ↦ l ]

unfoldable pub latencies : List TestResult → List ℕ
latencies ts = map latency_of (filter has_latency ts)

-- The arithmetic of doubles that the figures use, each double as the fraction that it is: the double
-- of a latency, and sums, quotients and products by 100 as they are rounded to doubles. What is known
-- of it is that a percentage of some tests is finite.
pub record Doubles : Type 0 where
  pub of_micros : ℕ → Quot
  pub plus : Quot → Quot → Quot
  pub over : Quot → ℕ → Quot
  pub times_100 : Quot → Quot
  pub finite :
      (part whole : ℕ)
      → 0 < whole
      → 0 < (times_100 (over (record { num = part; den = 1 }) whole)).den

-- `latencies.reduce((a, b) => a + b, 0)`
abbrev pub reduce : Doubles → Quot → List ℕ → Quot
reduce d total [] = total
reduce d total (n ∷ ns) = reduce d (d.plus total (d.of_micros n)) ns

abbrev pub sum : Doubles → List ℕ → Quot
sum d ns = reduce d (record { num = 0; den = 1 }) ns

-- `Math.round` of a fraction; a tie goes up.
abbrev pub round : Quot → ℕ
round q = (q.num * 2 + q.den) / (q.den * 2)

-- The average in hundredths of a millisecond: `Math.round(avg * 100)`.
abbrev pub hundredths : Doubles → List ℕ → ℕ
hundredths d ns = round (d.times_100 (d.over (sum d ns) (length ns)))

unfoldable pub average : Doubles → List ℕ → ℕ
average d ns = if length ns == 0 then 0 else hundredths d ns

unfoldable pub calculate_avg_latency : Doubles → List TestResult → ℕ
calculate_avg_latency d ts = average d (latencies ts)

-- The share of the tests that succeeded, in percent.
abbrev pub success_share : Doubles → List TestResult → Quot
success_share d ts =
    d.times_100 (d.over (record { num = length (filter succeeded ts); den = 1 }) (length ts))

-- What `toFixed(1)` writes, or '0'.
unfoldable pub calculate_success_rate : Doubles → List TestResult → Fixed
calculate_success_rate d ts =
    if ltb 0 (length ts)
    then to_fixed (success_share d ts) 10 1
    else record { scaled = 0; digits = 0 }

abbrev pub unique_devices : List TestResult → List Text
unique_devices ts = unique (map (λ t. t.device_serial) ts)

abbrev pub unique_test_types : List TestResult → List Text
unique_test_types ts = unique (map (λ t. t.test_type) ts)

-- `s.slice(-n)`
abbrev pub last_units : ℕ → Text → Text
last_units n s = drop (length s - n) s

pub record Point : Type 0 where
  pub index : ℕ
  pub latency : Option ℕ
  pub device : Text
  pub timestamp : String

abbrev pub points : (String → String) → ℕ → List TestResult → List Point
points local_time i [] = []
points local_time i (t ∷ ts) =
    record {
      index = i + 1;
      latency = t.latency;
      device = last_units 6 t.device_serial;
      timestamp = local_time t.created_at;
    }
    ∷ points local_time (i + 1) ts

-- These are given the filtered tests.
unfoldable pub prepare_latency_chart : (String → String) → List TestResult → List Point
prepare_latency_chart local_time ts =
    points local_time 0 (reverse (take 50 (filter has_latency ts)))

module _ (inherited_text : Text → Text) where
  unfoldable pub prepare_test_type_chart : List TestResult → List (Entry Count)
  prepare_test_type_chart ts = tally inherited_text (map (λ t. t.test_type) ts)

  abbrev pub device_counts : List TestResult → List (Entry Count)
  device_counts ts = tally inherited_text (map (λ t. t.device_serial) ts)

-- A bar of the chart: `device.slice(-8)` with the count.
abbrev pub bar : {A : Type 0} → Entry A → Entry A
bar e = record e { name = last_units 8 e.name }

unfoldable pub prepare_device_chart : (Text → Text) → List TestResult → List (Entry Count)
prepare_device_chart inherited_text ts =
    map bar (take 10 (by_count (device_counts inherited_text ts)))
