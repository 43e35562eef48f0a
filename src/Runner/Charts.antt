-- ===== src/Runner/Charts.antt =====
-- What webClient/frontend/src/components/RealtimeCharts.tsx renders: the gauges, and the chart with
-- what it shows of its points. Its colors and sizes are left out.
use Prim.Native.String.{String}
use waddle_perf.Common.{
  ℕ, suc, ◌-◌, ◌*◌, List, [], ◌∷◌, map, Bool, true, false, ◌==◌, if◌then◌else◌, Option, none, some,
  ◌≡◌, refl, arith, All, Bool-cases, inl, inr, zero,
}
use waddle_perf.Js.Number.{Number, nan, pos_inf, neg_inf, frac, lt_nat, gt_nat, is_nan}
use waddle_perf.Download.View.{Fixed, to_fixed}
use waddle_perf.Runner.{LatencyDataPoint, Metrics, whole}

pub data GaugeColor : Type 0 where
  green amber red blue : GaugeColor

-- `thresholds` is the pair of the two numbers.
unfoldable pub get_gauge_color : Number → ℕ × ℕ → GaugeColor
get_gauge_color value (low, high) =
    if lt_nat value low then green else if lt_nat value high then amber else red

-- What `toFixed` writes of numbers below 10 ^ 21.
pub data Written : Type 0 where
  not_a_number infinity minus_infinity : Written
  plus minus : Fixed → Written

-- `scale` is 10 ^ `digits`.
unfoldable pub write_fixed : ℕ → ℕ → Number → Written
write_fixed scale digits nan = not_a_number
write_fixed scale digits pos_inf = infinity
write_fixed scale digits neg_inf = minus_infinity
write_fixed scale digits (frac false n d) =
    plus (to_fixed (record { num = n; den = suc d }) scale digits)
write_fixed scale digits (frac true n d) =
    let r = to_fixed (record { num = n; den = suc d }) scale digits in
    if n == 0 then plus r else minus r

-- `value * factor / (divisor + 1)`, for a factor above 0.
abbrev pub scaled : ℕ → ℕ → Number → Number
scaled factor divisor (frac neg n d) = frac neg (n * factor) (suc d * suc divisor - 1)
scaled factor divisor x = x

-- `Math.min(value, 100)`
abbrev pub at_most_100 : Number → Number
at_most_100 x = if gt_nat x 100 then whole 100 else x

pub record Gauge : Type 0 where
  pub label : String
  pub color : GaugeColor
  pub value : Written
  pub unit : String
  pub width : Number

-- `width` is in percent: the value of 100 times the value by the end of the bar.
unfoldable pub latency_gauge : Metrics → Gauge
latency_gauge m = record {
  label = "Latency";
  color = get_gauge_color m.latency (50, 100);
  value = write_fixed 100 2 m.latency;
  unit = "ms";
  width = at_most_100 (scaled 100 199 m.latency);
}

unfoldable pub throughput_gauge : Metrics → Gauge
throughput_gauge m = record {
  label = "Throughput";
  color = blue;
  value = write_fixed 100 2 m.throughput;
  unit = " Mbps";
  width = at_most_100 (scaled 100 999 m.throughput);
}

unfoldable pub jitter_gauge : Metrics → Gauge
jitter_gauge m = record {
  label = "Jitter";
  color = get_gauge_color m.jitter (10, 30);
  value = write_fixed 100 2 m.jitter;
  unit = "ms";
  width = at_most_100 (scaled 100 49 m.jitter);
}

unfoldable pub packet_loss_gauge : Metrics → Gauge
packet_loss_gauge m = record {
  label = "Packet Loss";
  color = get_gauge_color m.packet_loss (1, 5);
  value = write_fixed 100 2 m.packet_loss;
  unit = "%";
  width = at_most_100 (scaled 10 0 m.packet_loss);
}

-- What the chart shows of a point: its place on the axes, and the text beside the pointer, which is
-- the written latency before " ms" and the index behind "Test #".
pub record Dot : Type 0 where
  pub x : ℕ
  pub y : Number
  pub tooltip : Written
  pub tooltip_label : ℕ

unfoldable pub dot : LatencyDataPoint → Dot
dot p = record {
  x = p.index;
  y = p.latency;
  tooltip = write_fixed 100 2 p.latency;
  tooltip_label = p.index;
}

pub record Chart : Type 0 where
  pub x_label : String
  pub y_label : String
  pub line_name : String
  pub dots : List Dot

-- `live` is the badge; the chart is there when it has points.
pub record Charts : Type 0 where
  pub live : Bool
  pub gauges : List Gauge
  pub chart : Option Chart

abbrev pub chart_of : List LatencyDataPoint → Option Chart
chart_of [] = none
chart_of (p ∷ ps) = some (record {
  x_label = "Test #";
  y_label = "Latency (ms)";
  line_name = "Latency";
  dots = map dot (p ∷ ps);
})

unfoldable pub charts : List LatencyDataPoint → Metrics → Bool → Charts
unfolding dot
charts points m is_running = record {
  live = is_running;
  gauges = latency_gauge m ∷ throughput_gauge m ∷ jitter_gauge m ∷ packet_loss_gauge m ∷ [];
  chart = chart_of points;
}

-- Between 0 and 100 percent.
abbrev pub IsPercent : Number → Type 0
IsPercent x = (lt_nat x 0 ≡ false) × (gt_nat x 100 ≡ false) × (is_nan x ≡ false)

-- A number that is there and not below 0.
abbrev pub IsMeasure : Number → Type 0
IsMeasure x = (lt_nat x 0 ≡ false) × (is_nan x ≡ false)

at_most_100-IsPercent : (x : Number) → IsMeasure x → IsPercent (at_most_100 x)
unfolding lt_nat gt_nat is_nan
at_most_100-IsPercent x (h, k) = elim (Bool-cases (gt_nat x 100)) [
  | inl over ↦ rw over (refl, refl, refl)
  | inr under ↦ rw under (h, under, k)
]

scaled-IsMeasure :
    (factor divisor : ℕ) (x : Number) → IsMeasure x → IsMeasure (scaled factor divisor x)
unfolding lt_nat is_nan
scaled-IsMeasure f d nan h = h
scaled-IsMeasure f d pos_inf h = h
scaled-IsMeasure f d neg_inf h = h
scaled-IsMeasure f d (frac true zero e) (h, k) =
    let none' : 0 * f ≡ 0 = omega arith in (ground (arith, none'), refl)
scaled-IsMeasure f d (frac true (suc n) e) (h, k) = ground arith
scaled-IsMeasure f d (frac false n e) (h, k) = (ground arith, refl)

bar-IsPercent :
    (factor divisor : ℕ) (x : Number)
    → IsMeasure x
    → IsPercent (at_most_100 (scaled factor divisor x))
bar-IsPercent f d x h = at_most_100-IsPercent (scaled f d x) (scaled-IsMeasure f d x h)

abbrev WidthIsPercent : Gauge → Type 0
WidthIsPercent g = IsPercent g.width

-- The bars of the four gauges are between 0 and 100 percent long, where the metrics are numbers that
-- are not below 0.
charts-IsPercent :
    (points : List LatencyDataPoint) (m : Metrics) (is_running : Bool)
    → IsMeasure m.latency
    → IsMeasure m.throughput
    → IsMeasure m.jitter
    → IsMeasure m.packet_loss
    → All WidthIsPercent (charts points m is_running).gauges
unfolding charts latency_gauge throughput_gauge jitter_gauge packet_loss_gauge
charts-IsPercent points m is_running l t j p = (
  bar-IsPercent 100 199 m.latency l,
  (
    bar-IsPercent 100 999 m.throughput t,
    (bar-IsPercent 100 49 m.jitter j, (bar-IsPercent 10 0 m.packet_loss p, tt)),
  ),
)
