-- ===== src/Monitor/Examples.antt =====
-- The theorems on the DAG monitor, at small inputs.
use condora.Base.{true, List, [], ◌∷◌, none, some, ◌≡◌, refl}
use condora.Enums.{RequestStatus, DagStatus}
use condora.Rows.{DagRow}
use condora.Effects.{answer}
use condora.Samples.{sample_dag, sample_state, idle_pool}
use condora.Monitor.{
  StatusBlock, node_status, dag_status, Files, parse_blocks, wu_names, extract_output_events,
  is_newly_completed, detect_completed_work_units,
}
use condora.Monitor.Poll.{
  HeldJob, Monitor, with_completed, bump_memory, final_status, final_summary, handle_dag_completion,
}
use condora.Monitor.Detection.{detect_completed_work_units-once}
use condora.Monitor.Ending.{IsEnding, handle_dag_completion-IsEnding, IsBump, bump_memory-IsBump}

abbrev blocks : List StatusBlock
blocks =
    dag_status
      (("NodesDone", 1) ∷ ("NodesFailed", 1) ∷ ("NodesQueued", 5) ∷ ("JobProcsIdle", 2) ∷ [])
    ∷ node_status "mg_000000" "5"
    ∷ node_status "mg_000001" "6"
    ∷ []

abbrev files : Files
files = record {
  status_blocks = λ path. some blocks;
  metrics = λ path. none;
  exists = λ path. true;
  manifest = λ directory name. none;
  unit_metrics = λ directory name. some (
      (1, record { events_written = some 7; events_processed = none })
      ∷ (0, record { events_written = some 9; events_processed = none })
      ∷ []);
}

abbrev dag : DagRow
dag = sample_dag 2 none DagStatus.running

abbrev monitor : Monitor
monitor = record {
  condor = idle_pool;
  scheduler = record {
    job_status = λ calls schedd_name cluster_id. answer none;
    count_dag_jobs = λ calls cluster_id schedd_name. answer none;
    held_jobs = λ calls cluster_id schedd_name. answer [];
  };
  files = files;
  max_memory_per_core = 4000;
}

parse_blocks_run : (parse_blocks blocks).running ≡ 3
unfolding parse_blocks
parse_blocks_run = refl

extract_output_events_run : extract_output_events (files.unit_metrics "/spool" "mg_000000") ≡ 7
unfolding extract_output_events
extract_output_events_run = refl

final_status_run : final_status (final_summary monitor dag) ≡ some DagStatus.partial
unfolding final_status final_summary
final_status_run = refl

detect_completed_work_units-once_example :
    let found = detect_completed_work_units files dag (parse_blocks blocks) in
    let after = record dag { completed_work_units = with_completed found dag } in
    (detect_completed_work_units files after (parse_blocks blocks) ≡ [])
    × (wu_names after.completed_work_units ≡ "mg_000000" ∷ [])
unfolding parse_blocks is_newly_completed
detect_completed_work_units-once_example =
    detect_completed_work_units-once files dag (parse_blocks blocks)

handle_dag_completion-IsEnding_example :
    IsEnding
      (final_summary monitor dag)
      dag
      (sample_state RequestStatus.active DagStatus.running)
      (handle_dag_completion monitor dag (sample_state RequestStatus.active DagStatus.running))
handle_dag_completion-IsEnding_example =
    handle_dag_completion-IsEnding monitor dag (sample_state RequestStatus.active DagStatus.running)

abbrev held_job : HeldJob
held_job = record {
  hold_reason_code = 34;
  request_memory = 3000;
  request_cpus = 1;
  node_name = "proc_1";
  cluster_id = 4711;
  proc_id = 0;
  iwd = "/spool";
}

bump_memory-IsBump_example : IsBump 4000 held_job (bump_memory 4000 held_job)
bump_memory-IsBump_example = bump_memory-IsBump 4000 held_job
