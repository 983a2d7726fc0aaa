-- ===== src/Adaptive.antt =====
-- src/condora/core/adaptive.py: what is tuned between rounds. Times, efficiencies and memory that
-- the code has as floats are exact fractions here; the margin is a fraction too.
pub mod Collect
pub mod Merge
pub mod Throughput
pub mod Threads
pub mod Split
pub mod Power
pub mod SplitBounds
pub mod Round
pub mod EventBounds
mod Examples
use condora.Base.{
  ℕ, zero, suc, String, Bool, true, false, List, [], ◌∷◌, Option, none, some, ◌+◌, ◌-◌, ◌*◌, ◌/◌,
  ◌==◌, ◌&&◌, ◌||◌, not, ltb, leb, min, max, is_empty, length, map, nat_eq, if◌then◌else◌,
}
use condora.Planner.{Fraction}
use condora.Fractions.{
  whole, is_positive, is_at_most, plus, minus, times, over, greater, floor, mean,
}

-- The samples of a step.
pub record StepSamples : Type 0 where
  pub wall_sec : List Fraction
  pub cpu_eff : List Fraction
  pub peak_rss_mb : List Fraction
  pub events : List Fraction
  pub throughput : List Fraction
  pub cpu_time_sec : List Fraction
  pub nthreads : List Fraction

-- The peaks that the memory monitor of a job measured, in MB; 0 where one is missing.
pub record Cgroup : Type 0 where
  pub peak_anon_mb : ℕ
  pub peak_nonreclaim_mb : ℕ
  pub tmpfs_peak_nonreclaim_mb : ℕ
  pub no_tmpfs_peak_anon_mb : ℕ
  pub gridpack_disk_mb : ℕ

-- The result of `wu_metrics_to_analyzed`, with the steps by their number.
pub record Metrics : Type 0 where
  pub steps : List (ℕ × StepSamples)
  pub peak_rss_mb : Fraction
  pub weighted_cpu_eff : Fraction
  pub effective_cores : Fraction
  pub num_jobs : ℕ
  pub nthreads : ℕ
  pub cgroup : Option Cgroup

-- `n <= math.sqrt(p * (2 * p))`
abbrev pub is_near : Fraction → ℕ → Bool
is_near n p = leb (n.num * n.num) (2 * (p * p) * (n.den * n.den))

-- The loop, from `p` on.
unfoldable pub power_from : ℕ → ℕ → Fraction → ℕ
power_from zero p n = 64
power_from (suc fuel) p n =
    let later = power_from fuel (p * 2) n in if is_near n p then p else later

-- `_nearest_power_of_2`: from 1, six times to 64.
unfoldable pub nearest_power_of_2 : Fraction → ℕ
unfolding power_from
nearest_power_of_2 n = if is_at_most n (whole 1) then 1 else power_from 6 1 n

-- What the probe of a job measured; 0 stands for no probe.
pub record Probe : Type 0 where
  pub job_peak_total_mb : Fraction
  pub num_instances : ℕ
  pub rss_mb : Fraction

-- The parameters of `compute_job_split`.
pub record SplitInput : Type 0 where
  pub metrics : Metrics
  pub original_nthreads : ℕ
  pub request_cpus : ℕ
  pub memory_per_core_mb : ℕ
  pub max_memory_per_core_mb : ℕ
  pub events_per_job : ℕ
  pub num_jobs_wu : ℕ
  pub safety_margin : Fraction
  pub probe : Probe
  pub split_tmpfs : Bool
  pub cgroup : Option Cgroup
  pub last_round_nthreads : ℕ
  pub min_threads : ℕ
  pub min_request_cpus : ℕ

pub record JobSplit : Type 0 where
  pub tuned_nthreads : ℕ
  pub job_multiplier : ℕ
  pub new_num_jobs : ℕ
  pub new_events_per_job : ℕ
  pub new_request_cpus : ℕ
  pub new_request_memory_mb : ℕ
  pub memory_source : Option String

abbrev pub sandbox_overhead_mb : ℕ
sandbox_overhead_mb = 3000

abbrev pub gridpack_of : Option Cgroup → ℕ
gridpack_of none = 0
gridpack_of (some c) = c.gridpack_disk_mb

abbrev pub tmpfs_peak_of : Option Cgroup → ℕ
tmpfs_peak_of none = 0
tmpfs_peak_of (some c) = c.tmpfs_peak_nonreclaim_mb

abbrev pub anon_of : Option Cgroup → ℕ
anon_of none = 0
anon_of (some c) = c.peak_anon_mb

abbrev pub nonreclaim_of : Option Cgroup → ℕ
nonreclaim_of none = 0
nonreclaim_of (some c) = c.peak_nonreclaim_mb

abbrev pub margin_mult : Fraction → Fraction
margin_mult margin = plus (whole 1) margin

-- `int(f * (1.0 + safety_margin))`
unfoldable pub with_margin : Fraction → Fraction → ℕ
unfolding plus times floor
with_margin margin f = floor (times f (margin_mult margin))

-- `while tuned < original_nthreads`: doubled until the memory is enough.
unfoldable pub double_until : ℕ → ℕ → ℕ → ℕ → ℕ → ℕ
double_until zero original per_core est_mem tuned = tuned
double_until (suc fuel) original per_core est_mem tuned =
    let more = double_until fuel original per_core est_mem (tuned * 2) in
    if ltb tuned original then if leb est_mem (tuned * per_core) then tuned else more else tuned

module _ (i : SplitInput) where
  abbrev pub effective_min : ℕ
  effective_min = max i.min_threads i.min_request_cpus

  -- The power of two near the effective cores, between the floor and the original threads.
  unfoldable pub first_tuned : ℕ
  unfolding nearest_power_of_2 times
  first_tuned =
      min
        (max (nearest_power_of_2 (times i.metrics.weighted_cpu_eff (whole i.original_nthreads)))
          effective_min)
        i.original_nthreads

  -- Without a measurement in tmpfs: by the size of the gridpack, or at most half as many threads.
  unfoldable pub tmpfs_tuned : ℕ → ℕ
  unfolding with_margin double_until
  tmpfs_tuned tuned =
      if ltb 0 (gridpack_of i.cgroup)
      then min
          (max
            (double_until i.original_nthreads i.original_nthreads i.max_memory_per_core_mb
              (with_margin i.safety_margin (whole (anon_of i.cgroup + gridpack_of i.cgroup))) tuned)
            effective_min)
          i.original_nthreads
      else (let prev_nt =
            if ltb 0 i.last_round_nthreads then i.last_round_nthreads else i.original_nthreads in
          max tuned (max (prev_nt / 2) effective_min))

  unfoldable pub tuned_threads : ℕ
  unfolding first_tuned tmpfs_tuned
  tuned_threads =
      if i.split_tmpfs && tmpfs_peak_of i.cgroup == 0 then tmpfs_tuned first_tuned else first_tuned
