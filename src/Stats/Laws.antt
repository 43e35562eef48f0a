-- ===== src/Stats/Laws.antt =====
-- What the figures of managerServer/frontend/src/pages/Statistics.tsx and Dashboard.tsx show.
use waddle_perf.Common.{
  ℕ, zero, suc, ◌+◌, ◌*◌, ◌/◌, ◌≤◌, List, [], ◌∷◌, ◌++◌, map, length, take, drop, min, true, ◌==◌,
  ltb, if◌then◌else◌, ◌≡◌, refl, sym, ap, subst, ◌<◌, arith, ◌∙◌, length-take, All,
}
use native.Mathlib.Nat.{mul-div-le, lt-mul-div-succ, lt_of_mul-lt-mul_left}
use waddle_perf.Regex.{Text}
use waddle_perf.Download.View.{Fixed}
use waddle_perf.Stats.Counts.{Count, Entry, by_count}
use waddle_perf.Stats.Plain.{
  IsOwn, plain_tally, plain_sort, as_number, tally-numbers, by_count-numbers,
}
use waddle_perf.Stats.Tallies.{IsTally, plain_tally-IsTally}
use waddle_perf.Stats.Sorting.{
  IsDescending, plain_sort-IsDescending, with_count, with_count-plain_sort, length-plain_sort,
}
use waddle_perf.Stats.Sets.{length-unique}
use waddle_perf.Stats.{
  TestResult, Doubles, succeeded, hundredths, filter, matches, filtered_tests,
  calculate_avg_latency, calculate_success_rate, average, latencies, success_share, unique_devices,
  prepare_test_type_chart, prepare_device_chart, device_counts, bar,
}
use waddle_perf.Stats.Dashboard.{calculate_stats}

-- The chart "Tests by Type", of types that no object inherits, has one bar for each type among the
-- filtered tests, as high as there are tests of the type, and its bars add up to the number of the
-- filtered tests.
prepare_test_type_chart-IsTally :
    (inherited_text : Text → Text) (ts : List TestResult)
    → All IsOwn (map (λ t. t.test_type) ts)
    → (es : List (Entry ℕ)) × (prepare_test_type_chart inherited_text ts ≡ map as_number es)
      × IsTally (map (λ t. t.test_type) ts) es
unfolding prepare_test_type_chart
prepare_test_type_chart-IsTally inherited_text ts own =
    let ks = map (λ t. t.test_type) ts in
    (plain_tally ks, tally-numbers inherited_text ks own, plain_tally-IsTally ks)

take-drop {ℓ} : {A : Type ℓ} (n : ℕ) (xs : List A) → take n xs ++ drop n xs ≡ xs
take-drop zero xs = refl
take-drop (suc n) [] = refl
take-drop (suc n) (x ∷ xs) = ap (λ ys. x ∷ ys) (take-drop n xs)

-- How the bars `chart` come from the counts `es`: as many as there are, ten at most; with the counts
-- that are left out behind them, they are all the counts in descending order, and equal counts keep
-- their order.
pub record IsTopTen (es : List (Entry ℕ)) (chart : List (Entry Count)) : Type 0 where
  pub shown : List (Entry ℕ)
  pub omitted : List (Entry ℕ)
  pub bars : chart ≡ map bar (map as_number shown)
  pub size : length shown ≡ min 10 (length es)
  pub descending : IsDescending (shown ++ omitted)
  pub stable : (n : ℕ) → with_count n (shown ++ omitted) ≡ with_count n es

-- The counts of the devices, and the chart of them.
pub record HasTopTen (ks : List Text) (counts chart : List (Entry Count)) : Type 0 where
  pub entries : List (Entry ℕ)
  pub numbers : counts ≡ map as_number entries
  pub tallied : IsTally ks entries
  pub charted : IsTopTen entries chart

take-map {ℓ κ} :
    {A : Type ℓ} {B : Type κ} (f : A → B) (n : ℕ) (xs : List A)
    → take n (map f xs) ≡ map f (take n xs)
take-map f zero xs = refl
take-map f (suc n) [] = refl
take-map f (suc n) (x ∷ xs) = ap (λ ys. f x ∷ ys) (take-map f n xs)

-- Of serial numbers among which is no name that every object inherits, such as "constructor": the
-- chart "Top Devices by Test Count" shows the ten devices with the most tests, or all where there are
-- fewer, in descending order, and devices with as many tests in the order of the counts, which are
-- those of the serial numbers among the filtered tests.
pub prepare_device_chart-IsTopTen :
    (inherited_text : Text → Text) (ts : List TestResult)
    → All IsOwn (map (λ t. t.device_serial) ts)
    → HasTopTen
        (map (λ t. t.device_serial) ts)
        (device_counts inherited_text ts)
        (prepare_device_chart inherited_text ts)
unfolding prepare_device_chart
prepare_device_chart-IsTopTen inherited_text ts own =
    let ks = map (λ (t : TestResult). t.device_serial) ts in
    let counts = plain_tally ks in
    let es = plain_sort counts in
    let whole : take 10 es ++ drop 10 es ≡ es = take-drop 10 es in
    let numbers = tally-numbers inherited_text ks own in
    record {
      entries = counts;
      numbers = numbers;
      tallied = plain_tally-IsTally ks;
      charted = record {
        shown = take 10 es;
        omitted = drop 10 es;
        bars =
            ap (λ cs. map bar (take 10 (by_count cs))) numbers
            ∙ ap (λ cs. map bar (take 10 cs)) (by_count-numbers counts)
            ∙ ap (map bar) (take-map as_number 10 es);
        size = length-take 10 es ∙ ap (min 10) (length-plain_sort counts);
        descending = subst IsDescending (sym whole) (plain_sort-IsDescending counts);
        stable = λ n. ap (with_count n) whole ∙ with_count-plain_sort n counts;
      };
    }

filter-all : (ts : List TestResult) → filter (matches [] []) ts ≡ ts
filter-all [] = refl
filter-all (t ∷ ts) = ap (λ us. t ∷ us) (filter-all ts)

-- A fraction in tenths and rounded to a whole number differ by half a unit at most.
round_near :
    (x t r f : ℕ)
    → 0 < t
    → (x * 2 + t) / (t * 2) ≡ r
    → (x * 10 * 2 + t) / (t * 2) ≡ f
    → (10 * r ≤ f + 5) × (f ≤ 10 * r + 5)
round_near x t r f pos er ef =
    let double : 0 < t * 2 = omega arith in
    let r_low : t * 2 * r ≤ x * 2 + t = subst (λ q. t * 2 * q ≤ x * 2 + t) er (mul-div-le _ _) in
    let f_low : t * 2 * f ≤ x * 10 * 2 + t =
      subst (λ q. t * 2 * q ≤ x * 10 * 2 + t) ef (mul-div-le _ _) in
    let r_high : x * 2 + t < t * 2 * (r + 1) =
      subst (λ q. x * 2 + t < t * 2 * (q + 1)) er (lt-mul-div-succ (x * 2 + t) double) in
    let f_high : x * 10 * 2 + t < t * 2 * (f + 1) =
      subst (λ q. x * 10 * 2 + t < t * 2 * (q + 1)) ef (lt-mul-div-succ (x * 10 * 2 + t) double) in
    let up : t * (10 * r) < t * (f + 6) = omega arith in
    let down : t * f < t * (10 * r + 6) = omega arith in
    let less : 10 * r < f + 6 = lt_of_mul-lt-mul_left t up in
    let more : f < 10 * r + 6 = lt_of_mul-lt-mul_left t down in (omega arith, omega arith)

-- A rate in tenths of a percent: '0' has no digit behind the point.
abbrev pub tenths : Fixed → ℕ
tenths r = if r.digits == 1 then r.scaled else r.scaled * 10

success_rate_near :
    (d : Doubles) (ts : List TestResult)
    → (10 * (calculate_stats d ts).success_rate ≤ tenths (calculate_success_rate d ts) + 5)
      × (tenths (calculate_success_rate d ts) ≤ 10 * (calculate_stats d ts).success_rate + 5)
unfolding calculate_success_rate calculate_stats
success_rate_near d [] = (omega arith, omega arith)
success_rate_near d (t ∷ ts) =
    let share = success_share d (t ∷ ts) in
    let some_tests : ltb 0 (length (t ∷ ts)) ≡ true = ground arith in
    let finite = d.finite (length (filter succeeded (t ∷ ts))) (length (t ∷ ts)) (omega arith) in
    rw some_tests (round_near share.num share.den _ _ finite refl refl)

-- What the two pages say of the same tests.
pub record Agree (d : Doubles) (ts : List TestResult) : Type 0 where
  pub same_tests : filtered_tests [] [] ts ≡ ts
  pub same_total : (calculate_stats d ts).total_tests ≡ length (filtered_tests [] [] ts)
  pub same_latency : (calculate_stats d ts).avg_latency ≡ calculate_avg_latency d ts
  pub same_devices : (calculate_stats d ts).devices ≡ length (unique_devices ts)
  pub near : 10 * (calculate_stats d ts).success_rate ≤ tenths (calculate_success_rate d ts) + 5
  pub near' : tenths (calculate_success_rate d ts) ≤ 10 * (calculate_stats d ts).success_rate + 5

average-eq : (n v : ℕ) → (if ltb 0 n then v else 0) ≡ (if n == 0 then 0 else v)
average-eq n v = ground arith

-- Of the same tests, and with no filter set, the dashboard and the statistics show the same number of
-- tests, the same average latency and the same number of devices, and success rates half a percent
-- apart at most, whatever the arithmetic of doubles is.
pub calculate_stats-Agree : (d : Doubles) (ts : List TestResult) → Agree d ts
unfolding calculate_stats calculate_avg_latency average filtered_tests
calculate_stats-Agree d ts = record {
  same_tests = filter-all ts;
  same_total = sym (ap length (filter-all ts));
  same_latency = average-eq (length (latencies ts)) (hundredths d (latencies ts));
  same_devices = refl;
  near = (success_rate_near d ts).0;
  near' = (success_rate_near d ts).1;
}

-- The card "Unique Devices" counts the names that the counts of all tests per device have.
length-unique_devices :
    (ts : List TestResult)
    → length (unique_devices ts) ≡ length (plain_tally (map (λ t. t.device_serial) ts))
length-unique_devices ts = length-unique (map (λ t. t.device_serial) ts)
