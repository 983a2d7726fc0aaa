-- ===== src/Adaptive/Threads.antt =====
-- `compute_per_step_nthreads`: parallel instances of the first step, and threads beyond the cores.
use condora.Base.{
  ℕ, zero, suc, String, Bool, true, false, List, [], ◌∷◌, ◌++◌, Option, none, some, ◌+◌, ◌-◌, ◌*◌,
  ◌/◌, ◌%◌, ◌==◌, ◌&&◌, ◌||◌, not, ltb, leb, min, max, is_empty, select, nat_eq, if◌then◌else◌,
}
use condora.Planner.{Fraction, is_less}
use condora.Fractions.{
  whole, is_positive, is_at_most, plus, minus, times, over, greater, floor, nearest, mean,
}
use condora.Adaptive.{
  StepSamples, Cgroup, Metrics, Probe, sandbox_overhead_mb, gridpack_of, tmpfs_peak_of, margin_mult,
  nearest_power_of_2,
}

pub record ThreadsInput : Type 0 where
  pub metrics : Metrics
  pub original_nthreads : ℕ
  pub request_cpus : ℕ
  pub max_memory_mb : ℕ
  pub overcommit_max : Fraction
  pub split : Bool
  pub probe : Probe
  pub safety_margin : Fraction
  pub cgroup : Option Cgroup
  pub min_threads : ℕ
  pub split_tmpfs : Bool

-- What is said of step 0 besides.
pub record StepSplit : Type 0 where
  pub ideal_n_parallel : ℕ
  pub ideal_memory_mb : ℕ
  pub instance_source : String
  pub instance_mem_mb : ℕ

pub record StepTuning : Type 0 where
  pub step_nthreads : ℕ
  pub n_parallel : ℕ
  pub mean_eff : Fraction
  pub eff_cores : Fraction
  pub overcommit_applied : Bool
  pub projected_rss_mb : Option Fraction
  pub step_split : Option StepSplit

-- `min(metrics["steps"].keys())`
unfoldable pub first_step : List (ℕ × StepSamples) → ℕ
first_step [] = 0
first_step ((si, s) ∷ []) = si
first_step ((si, s) ∷ p ∷ steps) = min si (first_step (p ∷ steps))

-- The numbers from `n` down to 2.
abbrev pub down_to_two : ℕ → List ℕ
down_to_two zero = []
down_to_two (suc zero) = []
down_to_two (suc (suc n)) = suc (suc n) ∷ down_to_two (suc n)

abbrev pub per_thread_overhead_mb : ℕ
per_thread_overhead_mb = 250

module _ (i : ThreadsInput) where
  abbrev pub mult : Fraction
  mult = margin_mult i.safety_margin

  -- What the gridpack of an instance adds.
  abbrev pub instance_extra : Fraction
  instance_extra =
      if i.split_tmpfs
      then whole (if ltb 0 (gridpack_of i.cgroup) then gridpack_of i.cgroup else 1500)
      else whole 0

  -- `instance_mem` and `memory_source`
  unfoldable pub instance_memory : Fraction → Fraction × String
  unfolding minus over times plus
  instance_memory avg_rss =
      if is_positive i.probe.job_peak_total_mb && ltb 0 i.probe.num_instances
      then (
        times
            (greater
              (over (minus i.probe.job_peak_total_mb (whole sandbox_overhead_mb))
                (whole i.probe.num_instances))
              (whole 500))
            mult,
        "probe_peak",
      )
      else if ltb 0 (tmpfs_peak_of i.cgroup)
      then (greater (times (whole (tmpfs_peak_of i.cgroup)) mult) (whole 500), "cgroup_measured")
      else if is_positive i.probe.rss_mb
      then (plus (times i.probe.rss_mb mult) instance_extra, "probe")
      else (plus (times avg_rss mult) instance_extra, "theoretical")

  -- The memory of so many instances.
  unfoldable pub total_for : ℕ → Fraction → Fraction
  unfolding plus times
  total_for p instance_mem = plus (whole sandbox_overhead_mb) (times (whole p) instance_mem)

  -- Numbers of instances that divide the cores come first.
  unfoldable pub candidates : ℕ → List ℕ
  candidates n_par =
      select (λ p. i.request_cpus % p == 0) (down_to_two n_par)
      ++ select (λ p. not (i.request_cpus % p == 0)) (down_to_two n_par)

  -- The first one that fits, or one instance.
  unfoldable pub first_fitting : Fraction → ℕ → List ℕ → ℕ × ℕ
  unfolding total_for
  first_fitting instance_mem tuned [] = (1, tuned)
  first_fitting instance_mem tuned (p ∷ ps) =
      let rest = first_fitting instance_mem tuned ps in
      if is_at_most (total_for p instance_mem) (whole i.max_memory_mb)
      then (p, max (i.request_cpus / p) i.min_threads)
      else rest

  -- The threads of an instance, and the number of instances, at most 4.
  unfoldable pub ideal_split : Fraction → ℕ × ℕ
  unfolding nearest_power_of_2
  ideal_split cores =
      let tuned = max (min (nearest_power_of_2 cores) i.original_nthreads) i.min_threads in
      (max (min (i.request_cpus / tuned) 4) 1, tuned)

  unfoldable pub fitted_split : Fraction → ℕ × ℕ → ℕ × ℕ
  unfolding first_fitting candidates
  fitted_split instance_mem ideal =
      let fitted =
        if ltb 0 i.max_memory_mb && (ltb 1 ideal.0 && is_positive instance_mem)
        then first_fitting instance_mem ideal.1 (candidates ideal.0)
        else ideal in
      if leb fitted.0 1 then (1, i.original_nthreads) else fitted

  -- Threads and memory beyond `tuned`: as many as the memory allows. `limit` is the memory of an
  -- instance.
  unfoldable pub overcommit : ℕ → ℕ → Fraction → Fraction → Bool → ℕ × Option Fraction
  unfolding plus minus over floor
  overcommit tuned extra_threads mem limit fits =
      let safe_extra = floor (over (minus limit mem) (whole per_thread_overhead_mb)) in
      if ltb 0 extra_threads && ltb 0 i.max_memory_mb
      then if fits
        then (
          tuned + extra_threads,
          some (plus mem (whole (extra_threads * per_thread_overhead_mb))),
        )
        else if ltb 0 safe_extra
        then (tuned + safe_extra, some (plus mem (whole (safe_extra * per_thread_overhead_mb))))
        else (tuned, none)
      else (tuned, none)

  unfoldable pub first_overcommit : Fraction → ℕ × ℕ → ℕ × Option Fraction
  unfolding overcommit total_for plus minus over nearest times floor
  first_overcommit instance_mem fitted =
      let tuned_oc =
        min (nearest (times (whole fitted.1) i.overcommit_max))
          (floor (times (whole i.original_nthreads) i.overcommit_max)) in
      let extra = tuned_oc - fitted.1 in
      let projected = plus instance_mem (whole (extra * per_thread_overhead_mb)) in
      if is_less (whole 1) i.overcommit_max && (ltb 1 fitted.0 && is_positive instance_mem)
      then overcommit fitted.1 extra instance_mem
          (over (whole (i.max_memory_mb - sandbox_overhead_mb)) (whole fitted.0))
          (is_at_most (total_for fitted.0 projected) (whole i.max_memory_mb))
      else (fitted.1, none)

  unfoldable pub later_overcommit : Fraction → Fraction → ℕ × Option Fraction
  unfolding overcommit nearest times plus
  later_overcommit mean_eff avg_rss =
      let extra =
        nearest (times (whole i.original_nthreads) i.overcommit_max) - i.original_nthreads in
      if is_at_most (record { num = 1; den = 2 }) mean_eff
        && is_less mean_eff (record { num = 9; den = 10 })
      then overcommit i.original_nthreads extra avg_rss (whole i.max_memory_mb) (
          is_at_most (plus avg_rss (whole (extra * per_thread_overhead_mb)))
            (whole i.max_memory_mb))
      else (i.original_nthreads, none)

  abbrev pub was_applied : Option Fraction → Bool
  was_applied none = false
  was_applied (some projected) = true

  abbrev pub tuning : Fraction → Fraction → ℕ → ℕ × Option Fraction → Option StepSplit → StepTuning
  tuning mean_eff cores n_par chosen step_split = record {
    step_nthreads = chosen.0;
    n_parallel = n_par;
    mean_eff = mean_eff;
    eff_cores = cores;
    overcommit_applied = was_applied chosen.1;
    projected_rss_mb = chosen.1;
    step_split = step_split;
  }

  unfoldable pub tune_first : ℕ → Fraction → Fraction → Fraction → StepTuning
  unfolding instance_memory ideal_split fitted_split first_overcommit total_for nearest
  tune_first si mean_eff cores avg_rss =
      let (instance_mem, source) = instance_memory avg_rss in
      let ideal = ideal_split cores in
      let fitted = fitted_split instance_mem ideal in
      let ideal_memory =
        if ltb 1 ideal.0 && is_positive instance_mem
        then total_for ideal.0 instance_mem
        else whole i.max_memory_mb in
      tuning mean_eff cores fitted.0 (first_overcommit instance_mem fitted) (
        if si == 0
        then some (record {
          ideal_n_parallel = ideal.0;
          ideal_memory_mb = nearest ideal_memory;
          instance_source = source;
          instance_mem_mb = nearest instance_mem;
        })
        else none)

  -- Another step, or the first one where it is not split. For step 0 the code then reads variables
  -- that it has not set, and raises.
  unfoldable pub tune_later : ℕ → Fraction → Fraction → Bool → Fraction → Option StepTuning
  unfolding later_overcommit
  tune_later si mean_eff cores has_eff avg_rss =
      let chosen =
        if (ltb 0 si || not i.split)
          && (is_less (whole 1) i.overcommit_max && (has_eff && is_positive avg_rss))
        then later_overcommit mean_eff avg_rss
        else (i.original_nthreads, none) in
      if si == 0 && i.split then none else some (tuning mean_eff cores 1 chosen none)

  unfoldable pub tune_step : ℕ → StepSamples → Option StepTuning
  unfolding mean times tune_first tune_later first_step
  tune_step si s =
      let mean_eff = mean s.cpu_eff in
      let cores = times mean_eff (whole i.original_nthreads) in
      if si == first_step i.metrics.steps
        && (i.split && (ltb 0 i.request_cpus && is_positive cores))
      then some (tune_first si mean_eff cores (mean s.peak_rss_mb))
      else tune_later si mean_eff cores (not (is_empty s.cpu_eff)) (mean s.peak_rss_mb)

  unfoldable pub tune_steps : List (ℕ × StepSamples) → Option (List (ℕ × StepTuning))
  unfolding tune_step
  tune_steps [] = some []
  tune_steps ((si, s) ∷ steps) = elim (tune_step si s) [
    | none ↦ none
    | some t ↦ elim (tune_steps steps) [ none ↦ none | some ts ↦ some ((si, t) ∷ ts) ]
  ]

  -- none stands for `UnboundLocalError`.
  unfoldable pub compute_per_step_nthreads : Option (List (ℕ × StepTuning))
  unfolding tune_steps
  compute_per_step_nthreads = tune_steps i.metrics.steps
