-- ===== src/Adaptive/Examples.antt =====
-- The tuning between rounds, at small inputs.
use condora.Base.{ℕ, Bool, true, false, [], ◌∷◌, Option, none, some, ◌≡◌, refl, arith}
use condora.Fractions.{whole}
use condora.Adaptive.{StepSamples, Metrics, SplitInput, JobSplit, nearest_power_of_2}
use condora.Adaptive.Collect.{missing, number, no_count}
use condora.Adaptive.Split.{compute_job_split}
use condora.Adaptive.Power.{IsNearest, nearest_power_of_2-IsNearest}
use condora.Adaptive.SplitBounds.{IsSplit, compute_job_split-IsSplit}
use condora.Adaptive.Throughput.{
  ThroughputOptimization, total_median_wall, compute_throughput_optimization,
}
use condora.Adaptive.EventBounds.{IsModest, compute_throughput_optimization-IsModest}
use condora.Adaptive.Round.{RoundInput, AdaptiveParams, no_probe, compute_round_optimization}

-- 5.6 is nearer to 4 than to 8, and 5.7 is not.
nearest_power_of_2_runs :
    (nearest_power_of_2 (record { num = 56; den = 10 }) ≡ 4)
    × (nearest_power_of_2 (record { num = 57; den = 10 }) ≡ 8)
unfolding nearest_power_of_2
nearest_power_of_2_runs = (refl, refl)

nearest_power_of_2-IsNearest_example :
    IsNearest (record { num = 57; den = 10 }) (nearest_power_of_2 (record { num = 57; den = 10 }))
nearest_power_of_2-IsNearest_example = nearest_power_of_2-IsNearest (record { num = 57; den = 10 })

-- A step at half of its eight threads, an hour and two hours long.
abbrev samples : StepSamples
samples = record {
  wall_sec = whole 3600 ∷ whole 7200 ∷ [];
  cpu_eff = record { num = 1; den = 2 } ∷ [];
  peak_rss_mb = whole 2400 ∷ [];
  events = [];
  throughput = [];
  cpu_time_sec = [];
  nthreads = [];
}

abbrev metrics : Metrics
metrics = record {
  steps = (1, samples) ∷ [];
  peak_rss_mb = whole 2400;
  weighted_cpu_eff = record { num = 1; den = 2 };
  effective_cores = whole 4;
  num_jobs = 8;
  nthreads = 8;
  cgroup = none;
}

abbrev split_of : ℕ → Bool → SplitInput
split_of threads tmpfs = record {
  metrics = metrics;
  original_nthreads = threads;
  request_cpus = threads;
  memory_per_core_mb = 2000;
  max_memory_per_core_mb = 3000;
  events_per_job = 1000;
  num_jobs_wu = 8;
  safety_margin = record { num = 1; den = 5 };
  probe = no_probe;
  split_tmpfs = tmpfs;
  cgroup = none;
  last_round_nthreads = 0;
  min_threads = 2;
  min_request_cpus = 4;
}

-- Twice as many jobs on four cores each.
compute_job_split_run :
    compute_job_split (split_of 8 false)
    ≡ some (record {
      tuned_nthreads = 4;
      job_multiplier = 2;
      new_num_jobs = 16;
      new_events_per_job = 500;
      new_request_cpus = 4;
      new_request_memory_mb = 8000;
      memory_source = some "prior_rss";
    })
unfolding compute_job_split
compute_job_split_run = refl

-- With two threads, and a gridpack that was never measured, it divides by zero.
compute_job_split_fails : compute_job_split (split_of 2 true) ≡ none
unfolding compute_job_split
compute_job_split_fails = refl

compute_job_split-IsSplit_example :
    (j : JobSplit) × ((compute_job_split (split_of 8 false) ≡ some j)
      × IsSplit (split_of 8 false) j)
compute_job_split-IsSplit_example =
    compute_job_split-IsSplit (split_of 8 false) refl (omega arith) (omega arith) (omega arith)
      (omega arith) (omega arith)

-- The median is an hour and a half, for 1000 events; the target is eight hours.
compute_throughput_optimization-IsModest_example :
    (o : ThroughputOptimization) × ((compute_throughput_optimization 1000
          (whole 600)
          2
          100
          metrics
          (whole 28800)
        ≡ some o)
      × IsModest 1000 2 100 o.tuned_events_per_job)
unfolding total_median_wall
compute_throughput_optimization-IsModest_example =
    compute_throughput_optimization-IsModest 1000 2 100 (whole 600) (whole 28800) metrics
      (omega arith) (omega arith) (omega arith) (omega arith) (omega arith) (omega arith)

-- Work units whose only step is number `si`; the first step is split into parallel instances.
abbrev round_of : ℕ → RoundInput
round_of si = record {
  inline_wu_metrics =
      record {
        per_step =
            (
              si,
              record {
                wall_time_sec = number (whole 3600);
                cpu_efficiency = number (record { num = 1; den = 4 });
                peak_rss = number (whole 3000);
                throughput_ev_s = missing;
                cpu_time = missing;
                num_threads = missing;
                events_processed = no_count;
              },
            )
            ∷ [];
        num_proc_jobs = 8;
        wu_cgroup = none;
      }
      ∷ [];
  from_disk = [];
  original_nthreads = 8;
  request_cpus = 8;
  default_memory_per_core = 2000;
  max_memory_per_core = 3000;
  safety_margin = record { num = 1; den = 5 };
  events_per_job = 0;
  jobs_per_wu = 8;
  min_request_cpus = 4;
  historical_peak_rss_mb = whole 0;
  split_tmpfs = false;
  target_wall_time_sec = whole 0;
  current_round = 0;
}

abbrev memory_of : Option AdaptiveParams → ℕ
memory_of none = 0
memory_of (some p) = p.tuned_memory_mb

-- Four instances need more memory than one; it is counted for step 0 and forgotten for step 1.
compute_round_optimization_runs :
    (memory_of (compute_round_optimization (round_of 0)) ≡ 17400)
    × (memory_of (compute_round_optimization (round_of 1)) ≡ 4000)
unfolding compute_round_optimization
compute_round_optimization_runs = (refl, refl)
