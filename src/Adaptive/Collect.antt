-- ===== src/Adaptive/Collect.antt =====
-- `wu_metrics_to_analyzed` and `merge_round_metrics`: the metrics of the work units, as one.
use condora.Base.{
  ℕ, Bool, List, [], ◌∷◌, map, Option, none, some, ◌*◌, ◌/◌, ◌==◌, ◌&&◌, not, max, is_empty, nat_eq,
  if◌then◌else◌,
}
use condora.Planner.{Fraction}
use condora.Fractions.{whole, is_positive, plus, times, over, greater, floor, mean, greatest}
use condora.Adaptive.{StepSamples, Cgroup, Metrics}

-- A metric of `work_unit_metrics.json`: missing, a summary with its mean and its maximum, or a number.
pub data MetricValue : Type 0 where
  missing : MetricValue
  summary : Option Fraction → Option Fraction → MetricValue
  number : Fraction → MetricValue

-- The events: a summary with its total, or a number.
pub data EventCount : Type 0 where
  no_count : EventCount
  total_count : ℕ → EventCount
  plain_count : Fraction → EventCount

pub record WuStep : Type 0 where
  pub wall_time_sec : MetricValue
  pub cpu_efficiency : MetricValue
  pub peak_rss : MetricValue
  pub throughput_ev_s : MetricValue
  pub cpu_time : MetricValue
  pub num_threads : MetricValue
  pub events_processed : EventCount

pub record WuMetrics : Type 0 where
  pub per_step : List (ℕ × WuStep)
  pub num_proc_jobs : ℕ
  pub wu_cgroup : Option Cgroup

abbrev pub if_positive : Fraction → List Fraction
if_positive f = if is_positive f then f ∷ [] else []

-- `_get_mean`
unfoldable pub get_mean : MetricValue → List Fraction
get_mean missing = []
get_mean (summary none mx) = []
get_mean (summary (some m) mx) = if_positive m
get_mean (number f) = if_positive f

abbrev pub same_fraction : Fraction → Fraction → Bool
same_fraction f g = f.num * g.den == g.num * f.den

-- The mean and the maximum, where they differ.
abbrev pub mean_and_max : Fraction → Fraction → List Fraction
mean_and_max mn mx =
    if is_positive mx && (is_positive mn && not (same_fraction mn mx))
    then mn ∷ mx ∷ []
    else if_positive mx

-- `_get_peak`
unfoldable pub get_peak : MetricValue → List Fraction
get_peak missing = []
get_peak (summary mn none) = []
get_peak (summary none (some mx)) = if_positive mx
get_peak (summary (some mn) (some mx)) = mean_and_max mn mx
get_peak (number f) = if_positive f

-- `total // num_jobs`, and `int(ev)`
unfoldable pub get_events : ℕ → EventCount → List Fraction
unfolding floor
get_events num_jobs no_count = []
get_events num_jobs (total_count n) = if n == 0 then [] else whole (n / num_jobs) ∷ []
get_events num_jobs (plain_count f) = if is_positive f then whole (floor f) ∷ [] else []

unfoldable pub samples_of : ℕ → WuStep → StepSamples
unfolding get_mean get_peak get_events
samples_of num_jobs step = record {
  wall_sec = get_mean step.wall_time_sec;
  cpu_eff = get_mean step.cpu_efficiency;
  peak_rss_mb = get_peak step.peak_rss;
  events = get_events num_jobs step.events_processed;
  throughput = get_mean step.throughput_ev_s;
  cpu_time_sec = get_mean step.cpu_time;
  nthreads = get_mean step.num_threads;
}

-- The sums of efficiency by wall time, and of wall time, over the steps that have both.
unfoldable pub weighted_sums : List (ℕ × StepSamples) → Fraction × Fraction
unfolding plus times mean
weighted_sums [] = (whole 0, whole 0)
weighted_sums ((si, s) ∷ steps) =
    let (numerator, denominator) = weighted_sums steps in
    if not (is_empty s.wall_sec) && not (is_empty s.cpu_eff)
    then (
      plus (times (mean s.cpu_eff) (mean s.wall_sec)) numerator,
      plus (mean s.wall_sec) denominator,
    )
    else (numerator, denominator)

-- One half, where nothing is known.
unfoldable pub weighted_eff : List (ℕ × StepSamples) → Fraction
unfolding weighted_sums over
weighted_eff steps =
    let (numerator, denominator) = weighted_sums steps in
    if is_positive denominator then over numerator denominator else record { num = 1; den = 2 }

unfoldable pub peak_of_all : List (ℕ × StepSamples) → Fraction
unfolding greatest
peak_of_all [] = whole 0
peak_of_all ((si, s) ∷ steps) = greater (peak_of_all steps) (greatest s.peak_rss_mb)

unfoldable pub threads_of_all : List (ℕ × StepSamples) → ℕ
unfolding greatest floor
threads_of_all [] = 1
threads_of_all ((si, s) ∷ steps) = max (floor (greatest s.nthreads)) (threads_of_all steps)

unfoldable pub analyzed : List (ℕ × StepSamples) → WuMetrics → Metrics
unfolding peak_of_all weighted_eff times threads_of_all
analyzed steps wu = record {
  steps = steps;
  peak_rss_mb = peak_of_all steps;
  weighted_cpu_eff = weighted_eff steps;
  effective_cores = times (weighted_eff steps) (whole (threads_of_all steps));
  num_jobs = wu.num_proc_jobs;
  nthreads = threads_of_all steps;
  cgroup = wu.wu_cgroup;
}

-- none stands for `ValueError`.
unfoldable pub wu_metrics_to_analyzed : WuMetrics → Option Metrics
unfolding samples_of analyzed
wu_metrics_to_analyzed wu =
    if wu.num_proc_jobs == 0
    then none
    else some
        (analyzed (map (λ (p : ℕ × WuStep). (p.0, samples_of wu.num_proc_jobs p.1)) wu.per_step) wu)
