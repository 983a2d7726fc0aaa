-- ===== src/Adaptive/Split.antt =====
-- `compute_job_split`: more jobs with fewer cores each, and their memory.
use condora.Base.{
  ℕ, String, List, [], ◌∷◌, Option, none, some, ◌+◌, ◌*◌, ◌/◌, ◌==◌, ◌&&◌, ◌||◌, not, ltb, min, max,
  is_empty, nat_eq, if◌then◌else◌,
}
use condora.Base.Dict.{lookup}
use condora.Planner.{Fraction}
use condora.Fractions.{whole, is_positive, plus, minus, over, greater, floor, mean}
use condora.Adaptive.{
  StepSamples, Cgroup, SplitInput, JobSplit, sandbox_overhead_mb, gridpack_of, tmpfs_peak_of,
  anon_of, nonreclaim_of, with_margin, first_tuned, tuned_threads,
}

-- The greatest mean of the steps' memory; a step without samples does not count.
unfoldable pub peak_mean_rss : List (ℕ × StepSamples) → Fraction
unfolding mean
peak_mean_rss [] = whole 0
peak_mean_rss ((si, step) ∷ steps) = greater (mean step.peak_rss_mb) (peak_mean_rss steps)

-- `cgroup.get("no_tmpfs_peak_anon_mb", 0)` beside the peak in tmpfs.
abbrev pub binding_peak : Option Cgroup → ℕ
binding_peak none = 0
binding_peak (some c) = max c.tmpfs_peak_nonreclaim_mb c.no_tmpfs_peak_anon_mb

module _ (i : SplitInput) where
  unfoldable pub probe_memory : ℕ
  unfolding minus over plus with_margin
  probe_memory =
      let marginal =
        greater
          (over (minus i.probe.job_peak_total_mb (whole sandbox_overhead_mb))
            (whole i.probe.num_instances))
          (whole 500) in
      with_margin i.safety_margin (plus (whole sandbox_overhead_mb) marginal)

  unfoldable pub cgroup_memory : ℕ × String
  unfolding tuned_threads with_margin
  cgroup_memory =
      if ltb 0 (tmpfs_peak_of i.cgroup)
      then (with_margin i.safety_margin (whole (binding_peak i.cgroup)), "cgroup_measured")
      else if ltb 0 (gridpack_of i.cgroup)
      then (
        with_margin i.safety_margin (whole (anon_of i.cgroup + gridpack_of i.cgroup)),
        "cgroup_gridpack_estimated",
      )
      else (tuned_threads i * i.max_memory_per_core_mb, "cgroup_no_tmpfs_data")

  -- What the extraction of a gridpack adds.
  abbrev pub tmpfs_extra : ℕ
  tmpfs_extra =
      if i.split_tmpfs
      then if ltb 0 (gridpack_of i.cgroup) then gridpack_of i.cgroup else 2000
      else 0

  -- Step 0 in tmpfs can be above the greatest mean.
  unfoldable pub effective_peak : Fraction → Fraction
  unfolding lookup mean plus
  effective_peak peak = elim (lookup 0 i.metrics.steps) [
    | none ↦ peak
    | some step ↦
        if i.split_tmpfs && not (is_empty step.peak_rss_mb)
        then greater peak (plus (mean step.peak_rss_mb) (whole 2000))
        else peak
  ]

  unfoldable pub rss_memory : Fraction → ℕ
  unfolding effective_peak with_margin floor
  rss_memory peak =
      let effective = effective_peak peak in
      max (with_margin i.safety_margin effective) (floor effective + 1000)

  -- `memory_from_measured` and `memory_source`
  unfoldable pub measured_memory : ℕ × String
  unfolding probe_memory cgroup_memory with_margin peak_mean_rss rss_memory
  measured_memory =
      if is_positive i.probe.job_peak_total_mb && ltb 0 i.probe.num_instances
      then (probe_memory, "probe_peak")
      else if i.split_tmpfs && ltb 0 (nonreclaim_of i.cgroup)
      then cgroup_memory
      else if is_positive i.probe.rss_mb
      then (with_margin i.safety_margin i.probe.rss_mb + tmpfs_extra, "probe_rss")
      else if is_positive (peak_mean_rss i.metrics.steps)
      then (rss_memory (peak_mean_rss i.metrics.steps), "prior_rss")
      else (0, "default")

  -- Between the floor and the ceiling for so many cores.
  unfoldable pub clamped_memory : ℕ → ℕ → ℕ
  clamped_memory tuned measured =
      let memory_floor = tuned * i.memory_per_core_mb in
      let memory_ceiling = tuned * i.max_memory_per_core_mb in
      if ltb memory_ceiling measured
      then memory_ceiling
      else max memory_floor (min measured memory_ceiling)

  -- A job has at least one event.
  unfoldable pub divide_events : ℕ → ℕ × ℕ
  divide_events job_multiplier =
      let new_events_per_job = i.events_per_job / job_multiplier in
      if new_events_per_job == 0
      then (i.events_per_job, 1)
      else (job_multiplier, new_events_per_job)

  unfoldable pub split_into : ℕ → ℕ → JobSplit
  unfolding divide_events clamped_memory measured_memory
  split_into tuned job_multiplier = record {
    tuned_nthreads = tuned;
    job_multiplier = (divide_events job_multiplier).0;
    new_num_jobs = i.num_jobs_wu * (divide_events job_multiplier).0;
    new_events_per_job = (divide_events job_multiplier).1;
    new_request_cpus = tuned;
    new_request_memory_mb = clamped_memory tuned measured_memory.0;
    memory_source = some measured_memory.1;
  }

  -- Without steps nothing is known, and nothing changes.
  abbrev pub unsplit : JobSplit
  unsplit = record {
    tuned_nthreads = i.original_nthreads;
    job_multiplier = 1;
    new_num_jobs = i.num_jobs_wu;
    new_events_per_job = i.events_per_job;
    new_request_cpus = i.request_cpus;
    new_request_memory_mb = i.memory_per_core_mb * i.request_cpus;
    memory_source = none;
  }

  -- none stands for `ZeroDivisionError`: no threads at all, or more of them than there were.
  unfoldable pub compute_job_split : Option JobSplit
  unfolding tuned_threads first_tuned split_into
  compute_job_split =
      let job_multiplier = i.original_nthreads / tuned_threads i in
      if is_empty i.metrics.steps
      then some unsplit
      else if first_tuned i == 0 || job_multiplier == 0
      then none
      else some (split_into (tuned_threads i) job_multiplier)
