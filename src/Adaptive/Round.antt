-- ===== src/Adaptive/Round.antt =====
-- `compute_round_optimization`: the parameters of the next round.
use condora.Base.{
  ℕ, String, Bool, true, List, [], ◌∷◌, Option, none, some, ◌+◌, ◌*◌, ◌==◌, ◌&&◌, ltb, leb, min,
  max, is_empty, nat_eq, if◌then◌else◌,
}
use condora.Planner.{Fraction}
use condora.Fractions.{whole, is_positive, greater, nearest}
use condora.Adaptive.{Metrics, Probe, SplitInput, JobSplit, sandbox_overhead_mb, with_margin}
use condora.Adaptive.Collect.{WuMetrics, wu_metrics_to_analyzed}
use condora.Adaptive.Merge.{merge_round_metrics}
use condora.Adaptive.Split.{compute_job_split}
use condora.Adaptive.Throughput.{ThroughputOptimization, compute_throughput_optimization}
use condora.Adaptive.Threads.{ThreadsInput, StepSplit, StepTuning, compute_per_step_nthreads}

-- The parameters; `from_disk` is what the directories of the work units give, where the database has
-- no metrics.
pub record RoundInput : Type 0 where
  pub inline_wu_metrics : List WuMetrics
  pub from_disk : List Metrics
  pub original_nthreads : ℕ
  pub request_cpus : ℕ
  pub default_memory_per_core : ℕ
  pub max_memory_per_core : ℕ
  pub safety_margin : Fraction
  pub events_per_job : ℕ
  pub jobs_per_wu : ℕ
  pub min_request_cpus : ℕ
  pub historical_peak_rss_mb : Fraction
  pub split_tmpfs : Bool
  pub target_wall_time_sec : Fraction
  pub current_round : ℕ

pub record AdaptiveParams : Type 0 where
  pub tuned_nthreads : ℕ
  pub tuned_memory_mb : ℕ
  pub tuned_request_cpus : ℕ
  pub job_multiplier : ℕ
  pub memory_source : String
  pub measured_memory_mb : ℕ
  pub tuned_events_per_job : ℕ
  pub per_step : List (ℕ × StepTuning)
  pub throughput_optimization : Option ThroughputOptimization
  pub metrics_summary : Option Metrics

-- What the parts of the function change in turn.
pub record Sizing : Type 0 where
  pub cpus : ℕ
  pub multiplier : ℕ
  pub events : ℕ
  pub memory_mb : ℕ
  pub measured_mb : ℕ
  pub source : String

abbrev pub min_memory_mb : ℕ
min_memory_mb = 4000

abbrev pub no_probe : Probe
no_probe = record { job_peak_total_mb = whole 0; num_instances = 0; rss_mb = whole 0 }

-- The metrics that are usable.
unfoldable pub usable : List WuMetrics → List Metrics
unfolding wu_metrics_to_analyzed
usable [] = []
usable (wu ∷ wus) = elim (wu_metrics_to_analyzed wu) [ none ↦ usable wus | some m ↦ m ∷ usable wus ]

abbrev pub source_or : String → Option String → String
source_or default none = default
source_or default (some source) = source

module _ (i : RoundInput) where
  unfoldable pub collected : List Metrics
  unfolding usable
  collected =
      if is_empty (usable i.inline_wu_metrics) then i.from_disk else usable i.inline_wu_metrics

  -- "2. Size memory from unified source hierarchy"
  unfoldable pub first_sizing : Metrics → Sizing
  unfolding nearest with_margin
  first_sizing merged =
      let peak_rss = greater merged.peak_rss_mb i.historical_peak_rss_mb in
      let max_memory_mb = i.max_memory_per_core * i.request_cpus in
      let known = is_positive peak_rss in
      record {
        cpus = i.request_cpus;
        multiplier = 1;
        events = i.events_per_job;
        memory_mb = max min_memory_mb (
            min
              (if known
                then with_margin i.safety_margin peak_rss
                else i.default_memory_per_core * i.request_cpus)
              max_memory_mb);
        measured_mb = if known then nearest peak_rss else 0;
        source = if known then "fjr_rss" else "default";
      }

  abbrev pub split_input : Metrics → SplitInput
  split_input merged = record {
    metrics = merged;
    original_nthreads = i.original_nthreads;
    request_cpus = i.request_cpus;
    memory_per_core_mb = i.default_memory_per_core;
    max_memory_per_core_mb = i.max_memory_per_core;
    events_per_job = i.events_per_job;
    num_jobs_wu = i.jobs_per_wu;
    safety_margin = i.safety_margin;
    probe = no_probe;
    split_tmpfs = i.split_tmpfs;
    cgroup = merged.cgroup;
    last_round_nthreads = 0;
    min_threads = 2;
    min_request_cpus = i.min_request_cpus;
  }

  abbrev pub apply_split : JobSplit → Sizing → Sizing
  apply_split j z =
      if ltb 1 j.job_multiplier
      then record z {
        cpus = j.new_request_cpus;
        multiplier = j.job_multiplier;
        events = j.new_events_per_job;
        memory_mb = j.new_request_memory_mb;
        source = source_or z.source j.memory_source;
      }
      else z

  -- "3. Decide job splitting"
  unfoldable pub split_sizing : Metrics → Sizing → Option Sizing
  unfolding compute_job_split
  split_sizing merged z =
      if i.events_per_job == 0 then some z else elim (compute_job_split (split_input merged)) [
        | none ↦ none
        | some j ↦ some (apply_split j z)
      ]

  -- "3b. Throughput-based events_per_job optimization (round 1+)"
  unfoldable pub throughput_for : Metrics → Sizing → Option ThroughputOptimization
  unfolding compute_throughput_optimization
  throughput_for merged z =
      if leb 1 i.current_round && (is_positive i.target_wall_time_sec && ltb 0 z.events)
      then compute_throughput_optimization z.events (whole 600) 2 100 merged i.target_wall_time_sec
      else none

  abbrev pub events_for : Option ThroughputOptimization → Sizing → Sizing
  events_for none z = z
  events_for (some o) z = record z { events = o.tuned_events_per_job }

  abbrev pub threads_input : Metrics → Sizing → ThreadsInput
  threads_input merged z = record {
    metrics = merged;
    original_nthreads = i.original_nthreads;
    request_cpus = z.cpus;
    max_memory_mb = i.max_memory_per_core * z.cpus;
    overcommit_max = whole 1;
    split = true;
    probe = no_probe;
    safety_margin = i.safety_margin;
    cgroup = merged.cgroup;
    min_threads = 2;
    split_tmpfs = i.split_tmpfs;
  }

  -- Memory for the parallel instances of a step.
  unfoldable pub raise_for : ℕ → Option StepSplit → Sizing → Sizing
  raise_for n_par none z = z
  raise_for n_par (some split) z =
      let split_need = sandbox_overhead_mb + n_par * split.instance_mem_mb in
      let split_clamped = max min_memory_mb (min split_need (i.max_memory_per_core * z.cpus)) in
      if ltb 1 n_par && ltb z.memory_mb split_clamped
      then record z {
        memory_mb = split_clamped;
        measured_mb = split_need;
        source = "fjr_rss_split";
      }
      else z

  -- "4b. Adjust memory for internal parallelism"
  unfoldable pub raise_memory_for : List (ℕ × StepTuning) → Sizing → Sizing
  unfolding raise_for
  raise_memory_for [] z = z
  raise_memory_for ((si, t) ∷ steps) z =
      raise_memory_for steps (raise_for t.n_parallel t.step_split z)

  abbrev pub result_of :
      Metrics → Option ThroughputOptimization → List (ℕ × StepTuning) → Sizing → AdaptiveParams
  result_of merged throughput steps z = record {
    tuned_nthreads = z.cpus;
    tuned_memory_mb = z.memory_mb;
    tuned_request_cpus = z.cpus;
    job_multiplier = z.multiplier;
    memory_source = z.source;
    measured_memory_mb = z.measured_mb;
    tuned_events_per_job = z.events;
    per_step = steps;
    throughput_optimization = throughput;
    metrics_summary = some merged;
  }

  unfoldable pub tune_threads :
      Metrics → Option ThroughputOptimization → Sizing → Option AdaptiveParams
  unfolding compute_per_step_nthreads raise_memory_for
  tune_threads merged throughput z = elim (compute_per_step_nthreads (threads_input merged z)) [
    | none ↦ none
    | some steps ↦ some (result_of merged throughput steps (raise_memory_for steps z))
  ]

  unfoldable pub optimize_merged : Metrics → Option AdaptiveParams
  unfolding first_sizing split_sizing throughput_for tune_threads
  optimize_merged merged = elim (split_sizing merged (first_sizing merged)) [
    | none ↦ none
    | some z ↦
        tune_threads merged (throughput_for merged z) (events_for (throughput_for merged z) z)
  ]

  abbrev pub default_params : AdaptiveParams
  default_params = record {
    tuned_nthreads = i.original_nthreads;
    tuned_memory_mb = i.default_memory_per_core * i.request_cpus;
    tuned_request_cpus = i.request_cpus;
    job_multiplier = 1;
    memory_source = "default";
    measured_memory_mb = 0;
    tuned_events_per_job = i.events_per_job;
    per_step = [];
    throughput_optimization = none;
    metrics_summary = none;
  }

  -- none stands for an exception, which the caller logs.
  unfoldable pub compute_round_optimization : Option AdaptiveParams
  unfolding collected merge_round_metrics optimize_merged
  compute_round_optimization = elim (merge_round_metrics i.original_nthreads collected) [
    | none ↦ some default_params
    | some merged ↦ optimize_merged merged
  ]
