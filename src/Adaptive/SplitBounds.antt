-- ===== src/Adaptive/SplitBounds.antt =====
-- The bounds of a job split.
use condora.Base.{
  ℕ, zero, suc, false, ◌≡◌, refl, ap, some, inl, inr, ◌+◌, ◌*◌, ◌/◌, ◌≤◌, ◌<◌, ◌==◌, ◌&&◌, ◌||◌,
  ltb, min, is_empty, nat_eq, Bool-cases, arith,
}
use native.Mathlib.Nat.{mul-le-mul_left, mul-le-mul_right, mul-div-le, div-mul-le_self}
use condora.Adaptive.{
  SplitInput, JobSplit, gridpack_of, tmpfs_peak_of, double_until, effective_min, first_tuned,
  tmpfs_tuned, tuned_threads, nearest_power_of_2, with_margin, anon_of,
}
use condora.Fractions.{whole, times}
use condora.Adaptive.Power.{positive, nearest_power_of_2-IsNearest}
use condora.Adaptive.Split.{
  measured_memory, clamped_memory, divide_events, split_into, compute_job_split,
}

-- What the split promises: each job has an event and at least the floor of the threads, all jobs
-- together have no more events and cores than before, and the memory is within the limits.
pub record IsSplit (i : SplitInput) (j : JobSplit) : Type 0 where
  pub jobs : 0 < j.job_multiplier
  pub events : 0 < j.new_events_per_job
  pub events_bound : j.job_multiplier * j.new_events_per_job ≤ i.events_per_job
  pub cores_bound : j.job_multiplier * j.tuned_nthreads ≤ i.original_nthreads
  pub threads_floor : min (effective_min i) i.original_nthreads ≤ j.tuned_nthreads
  pub memory_floor : j.tuned_nthreads * i.memory_per_core_mb ≤ j.new_request_memory_mb
  pub memory_ceiling : j.new_request_memory_mb ≤ j.tuned_nthreads * i.max_memory_per_core_mb
  pub all_jobs : j.new_num_jobs ≡ i.num_jobs_wu * j.job_multiplier
  pub same_cores : j.new_request_cpus ≡ j.tuned_nthreads

double_until-ge :
    (fuel original per_core est_mem tuned : ℕ)
    → tuned ≤ double_until fuel original per_core est_mem tuned
unfolding double_until
double_until-ge zero original per_core est_mem tuned = omega arith
double_until-ge (suc fuel) original per_core est_mem tuned =
    let later = double_until-ge fuel original per_core est_mem (tuned * 2) in ground (arith, later)

-- Enough threads, and no more than there were.
abbrev AreThreads : SplitInput → ℕ → Type 0
AreThreads i t =
    (0 < t) × ((t ≤ i.original_nthreads) × (min (effective_min i) i.original_nthreads ≤ t))

module _ (i : SplitInput) (some_threads : 0 < i.original_nthreads) where
  nearest-positive :
      0 < nearest_power_of_2 (times i.metrics.weighted_cpu_eff (whole i.original_nthreads))
  nearest-positive =
      positive
        (nearest_power_of_2-IsNearest
          (times i.metrics.weighted_cpu_eff (whole i.original_nthreads))).power

  first_tuned-AreThreads : AreThreads i (first_tuned i)
  unfolding first_tuned
  first_tuned-AreThreads =
      let p = nearest_power_of_2 (times i.metrics.weighted_cpu_eff (whole i.original_nthreads)) in
      let one : 0 < p = nearest-positive in ground (arith, one, some_threads)

  module _ (floor_fits : effective_min i ≤ i.original_nthreads)
      (last_fits : i.last_round_nthreads ≤ i.original_nthreads) where
    tmpfs_tuned-AreThreads : (t : ℕ) → AreThreads i t → AreThreads i (tmpfs_tuned i t)
    unfolding tmpfs_tuned
    tmpfs_tuned-AreThreads t (one, (le, ge)) = elim (Bool-cases (ltb 0 (gridpack_of i.cgroup))) [
      | inl sized ↦
          let est_mem =
            with_margin i.safety_margin (whole (anon_of i.cgroup + gridpack_of i.cgroup)) in
          let more : t
              ≤ double_until i.original_nthreads i.original_nthreads i.max_memory_per_core_mb
                  est_mem t =
            double_until-ge i.original_nthreads i.original_nthreads i.max_memory_per_core_mb est_mem
              t in
          rw sized (ground (arith, more, one, some_threads))
      | inr unsized ↦ rw unsized (ground (arith, one, le, ge, floor_fits, last_fits, some_threads))
    ]

    tuned_threads-AreThreads : AreThreads i (tuned_threads i)
    unfolding tuned_threads
    tuned_threads-AreThreads = elim (Bool-cases (i.split_tmpfs && tmpfs_peak_of i.cgroup == 0)) [
      | inl guessed ↦ rw guessed (tmpfs_tuned-AreThreads (first_tuned i) first_tuned-AreThreads)
      | inr measured ↦ rw measured first_tuned-AreThreads
    ]

clamped_memory-bounds :
    (i : SplitInput) (tuned measured : ℕ)
    → i.memory_per_core_mb ≤ i.max_memory_per_core_mb
    → (tuned * i.memory_per_core_mb ≤ clamped_memory i tuned measured)
      × (clamped_memory i tuned measured ≤ tuned * i.max_memory_per_core_mb)
unfolding clamped_memory
clamped_memory-bounds i tuned measured le =
    let room : tuned * i.memory_per_core_mb ≤ tuned * i.max_memory_per_core_mb =
      mul-le-mul_left tuned le in
    ground (arith, room)

quotient_positive : (n t : ℕ) → 0 < t → t ≤ n → 0 < n / t
quotient_positive n t one le = elim (Bool-cases (n / t == 0)) [
  | inl zero_b ↦
      let zero_q : n / t ≡ 0 = ground arith in
      omega (arith, one, le, zero_q, ap (λ (q : ℕ). t * q) zero_q)
  | inr nonzero ↦ ground arith
]

neither_zero : (a b : ℕ) → 0 < a → 0 < b → (a == 0 || b == 0) ≡ false
neither_zero a b ha hb = ground arith

-- The split of the events over the jobs.
divide_events-bounds :
    (i : SplitInput) (m : ℕ)
    → 0 < i.events_per_job
    → 0 < m
    → (0 < (divide_events i m).0)
      × ((0 < (divide_events i m).1)
          × (((divide_events i m).0 * (divide_events i m).1 ≤ i.events_per_job)
              × ((divide_events i m).0 ≤ m)))
unfolding divide_events
divide_events-bounds i m some_events one = elim (Bool-cases (i.events_per_job / m == 0)) [
  | inl few ↦
      let none_each : i.events_per_job / m ≡ 0 = ground arith in
      let fewer : i.events_per_job ≤ m =
        omega (arith, one, none_each, ap (λ (q : ℕ). m * q) none_each) in
      rw few (some_events, (omega arith, (omega arith, fewer)))
  | inr enough ↦
      let each : 0 < i.events_per_job / m = ground arith in
      rw enough (one, (each, (mul-div-le i.events_per_job m, omega arith)))
]

-- Where there are steps, events and threads, the limits of memory are in order, and the floor and the
-- last round's threads are within the original ones, `compute_job_split` gives a split: each job has
-- an event, all jobs together have no more events and cores than before, each has at least the
-- floor of the threads, and its memory is between the floor and the ceiling for its cores.
pub compute_job_split-IsSplit :
    (i : SplitInput)
    → is_empty i.metrics.steps ≡ false
    → 0 < i.original_nthreads
    → 0 < i.events_per_job
    → i.memory_per_core_mb ≤ i.max_memory_per_core_mb
    → effective_min i ≤ i.original_nthreads
    → i.last_round_nthreads ≤ i.original_nthreads
    → (j : JobSplit) × ((compute_job_split i ≡ some j) × IsSplit i j)
unfolding compute_job_split split_into
compute_job_split-IsSplit i steps some_threads some_events limits floor_fits last_fits =
    let (one, (le, ge)) = tuned_threads-AreThreads i some_threads floor_fits last_fits in
    let t = tuned_threads i in
    let m = i.original_nthreads / t in
    let first : 0 < first_tuned i = (first_tuned-AreThreads i some_threads).0 in
    let several : 0 < m = quotient_positive i.original_nthreads t one le in
    let (jobs, (each, (bound, fewer))) = divide_events-bounds i m some_events several in
    let (low, high) = clamped_memory-bounds i t (measured_memory i).0 limits in
    let no_error : (first_tuned i == 0 || m == 0) ≡ false =
      neither_zero (first_tuned i) m first several in
    (
      split_into i t m,
      (
        rw (steps, no_error) refl,
        record {
          jobs = jobs;
          events = each;
          events_bound = bound;
          cores_bound =
              omega (arith, mul-le-mul_right t fewer, div-mul-le_self i.original_nthreads t);
          threads_floor = ge;
          memory_floor = low;
          memory_ceiling = high;
          all_jobs = refl;
          same_cores = refl;
        },
      ),
    )
