-- ===== src/Adaptive/Throughput.antt =====
-- `compute_throughput_optimization`: the events of a job for a target wall time.
use condora.Base.{
  ℕ, List, [], ◌∷◌, Option, none, some, ◌-◌, ◌*◌, ◌/◌, ◌%◌, ◌==◌, ◌||◌, not, max, drop, is_empty,
  length, nat_eq, if◌then◌else◌,
}
use condora.Planner.{Fraction}
use condora.Fractions.{
  whole, is_positive, is_at_most, plus, minus, times, over, greater, smaller, nearest,
}
use condora.Adaptive.{StepSamples, Metrics}

pub record ThroughputOptimization : Type 0 where
  pub tuned_events_per_job : ℕ
  pub measured_wall_per_event_sec : Fraction
  pub estimated_total_wall_sec : Fraction
  pub total_median_wall_sec : Fraction

unfoldable pub insert_value : Fraction → List Fraction → List Fraction
insert_value f [] = f ∷ []
insert_value f (g ∷ gs) =
    let rest = insert_value f gs in if is_at_most f g then f ∷ g ∷ gs else g ∷ rest

unfoldable pub sorted : List Fraction → List Fraction
unfolding insert_value
sorted [] = []
sorted (f ∷ fs) = insert_value f (sorted fs)

abbrev pub first_or_zero : List Fraction → Fraction
first_or_zero [] = whole 0
first_or_zero (f ∷ fs) = f

-- `sorted_vals[k]`, which is there where it is read.
abbrev pub element : ℕ → List Fraction → Fraction
element k fs = first_or_zero (drop k fs)

unfoldable pub median : List Fraction → Fraction
unfolding sorted plus over
median fs =
    let vals = sorted fs in
    let n = length vals in
    if n % 2 == 1
    then element (n / 2) vals
    else over (plus (element (n / 2 - 1) vals) (element (n / 2) vals)) (whole 2)

-- The sum of the medians of the steps that have samples.
unfoldable pub total_median_wall : List (ℕ × StepSamples) → Fraction
unfolding median plus
total_median_wall [] = whole 0
total_median_wall ((si, s) ∷ steps) =
    let rest = total_median_wall steps in
    if is_empty s.wall_sec then rest else plus (median s.wall_sec) rest

-- `round(f, digits)` for `unit = 10 ** digits`
abbrev pub rounded_to : ℕ → Fraction → Fraction
rounded_to unit f = record { num = nearest (times f (whole unit)); den = unit }

-- At most `max_change_factor` away from the present number, to the nearest 100, and not below the floor.
unfoldable pub tuned_events : ℕ → ℕ → ℕ → Fraction → ℕ
unfolding over times nearest
tuned_events current max_change_factor min_events_per_job ideal =
    let lower = over (whole current) (whole max_change_factor) in
    let upper = whole (current * max_change_factor) in
    max min_events_per_job (nearest (over (greater lower (smaller ideal upper)) (whole 100)) * 100)

module _ (current : ℕ) (startup_overhead_sec : Fraction)
    (max_change_factor min_events_per_job : ℕ) where
  unfoldable pub optimize_for : Fraction → Fraction → ThroughputOptimization
  unfolding over tuned_events plus times
  optimize_for total available =
      let measured = over total (whole current) in
      let tuned =
        tuned_events current max_change_factor min_events_per_job (over available measured) in
      record {
        tuned_events_per_job = tuned;
        measured_wall_per_event_sec = rounded_to 10000 measured;
        estimated_total_wall_sec =
            rounded_to 10 (plus (times measured (whole tuned)) startup_overhead_sec);
        total_median_wall_sec = rounded_to 10 total;
      }

  -- The available time is positive only where the target is above the overhead.
  unfoldable pub compute_throughput_optimization :
      Metrics → Fraction → Option ThroughputOptimization
  unfolding total_median_wall minus optimize_for
  compute_throughput_optimization merged target_wall_time_sec =
      let total = total_median_wall merged.steps in
      let available = minus target_wall_time_sec startup_overhead_sec in
      if current == 0 || not (is_positive target_wall_time_sec)
      then none
      else if not (is_positive total) || not (is_positive available)
      then none
      else some (optimize_for total available)
