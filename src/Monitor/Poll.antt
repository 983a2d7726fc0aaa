-- ===== src/Monitor/Poll.antt =====
-- `poll_dag`, `_handle_dag_completion` and `_handle_held_oom_jobs`.
use Prim.Native.String.{◌++◌ as append}
use condora.Base.{
  ℕ, String, List, [], ◌∷◌, ◌++◌, map, Option, none, some, ◌+◌, ◌*◌, ◌/◌, ◌&&◌, ◌||◌, ◌==◌, ltb,
  leb, min, string_eq, nat_eq, if◌then◌else◌,
}
use condora.Base.Dict.{insert}
use condora.Base.Paths.{is_blank}
use condora.Enums.{DagStatus}
use condora.Rows.{WorkUnit, enriched, DagRow}
use condora.Repository.{update_dag}
use condora.Effects.{
  CondorCall, edit_job_attr, release_jobs, update_sub_file, Answer, answer, unreachable, Condor,
  State, return, M, ◌>>◌, pure, done, update, perform, for_each,
}
use condora.Monitor.{
  NodeSummary, empty_summary, Files, CompletedUnit, parse_dagman_status, resolve_dag_file,
  detect_completed_work_units, aggregate_inner_status,
}

-- A job held by the pool.
pub record HeldJob : Type 0 where
  pub hold_reason_code : ℕ
  pub request_memory : ℕ
  pub request_cpus : ℕ
  pub node_name : String
  pub cluster_id : ℕ
  pub proc_id : ℕ
  pub iwd : String

-- What the monitor asks the pool besides: the status of a job that is there, the counts of a DAG's
-- jobs with their total, and its held jobs.
pub record Scheduler : Type 0 where
  pub job_status : List CondorCall → Option String → Option ℕ → Answer (Option ℕ)
  pub count_dag_jobs : List CondorCall → ℕ → Option String → Answer (Option (ℕ × NodeSummary))
  pub held_jobs : List CondorCall → ℕ → Option String → Answer (List HeldJob)

pub record Monitor : Type 0 where
  pub condor : Condor
  pub scheduler : Scheduler
  pub files : Files
  pub max_memory_per_core : ℕ

-- `DAGPollResult`
pub record DagPollResult : Type 0 where
  pub dag_id : ℕ
  pub status : DagStatus
  pub nodes_idle : ℕ
  pub nodes_running : ℕ
  pub nodes_done : ℕ
  pub nodes_failed : ℕ
  pub nodes_held : ℕ
  pub newly_completed_work_units : List CompletedUnit

-- The result that repeats the row's counts.
abbrev pub unchanged : DagRow → DagPollResult
unchanged dag = record {
  dag_id = dag.id;
  status = DagStatus.running;
  nodes_idle = dag.nodes_idle;
  nodes_running = dag.nodes_running;
  nodes_done = dag.nodes_done;
  nodes_failed = dag.nodes_failed;
  nodes_held = dag.nodes_held;
  newly_completed_work_units = [];
}

-- The units as the row keeps them.
abbrev pub enrich : CompletedUnit → WorkUnit
enrich wu = enriched wu.group_name wu.output_events

abbrev pub with_completed : List CompletedUnit → DagRow → List WorkUnit
with_completed newly_completed dag = dag.completed_work_units ++ map enrich newly_completed

unfoldable pub with_wu_counts : NodeSummary → List (String × ℕ) → List (String × ℕ)
unfolding insert
with_wu_counts summary counts =
    insert "wus_failed" summary.failed (insert "wus_done" summary.done counts)

-- "Determine final status"; none where the files show nothing.
unfoldable pub final_status : NodeSummary → Option DagStatus
final_status summary =
    if summary.failed == 0 && ltb 0 summary.done
    then some DagStatus.completed
    else if ltb 0 summary.done && ltb 0 summary.failed
    then some DagStatus.partial
    else if ltb 0 summary.failed && summary.done == 0
    then some DagStatus.failed
    else none

-- The memory of a job after the bump, if it can be raised.
unfoldable pub bump_memory : ℕ → HeldJob → Option ℕ
bump_memory max_memory_per_core job =
    let new_mem = min (job.request_memory * 3 / 2) (max_memory_per_core * job.request_cpus) in
    if leb new_mem job.request_memory then none else some new_mem

module _ (monitor : Monitor) where
  -- The final counts: of the metrics file or, where it shows nothing, of the status file.
  unfoldable pub final_summary : DagRow → NodeSummary
  unfolding resolve_dag_file parse_dagman_status
  final_summary dag =
      let from_metrics =
        elim (monitor.files.metrics (resolve_dag_file monitor.files dag ".metrics"))
          as (λ _. NodeSummary) [ none ↦ empty_summary | some summary ↦ summary ] in
      if from_metrics.done == 0 && from_metrics.failed == 0
      then parse_dagman_status
          (monitor.files.status_blocks (resolve_dag_file monitor.files dag ".status"))
      else from_metrics

  unfoldable pub status_summary : DagRow → NodeSummary
  unfolding resolve_dag_file parse_dagman_status
  status_summary dag =
      parse_dagman_status
        (monitor.files.status_blocks (resolve_dag_file monitor.files dag ".status"))

  abbrev pub detected : DagRow → List CompletedUnit
  detected dag = detect_completed_work_units monitor.files dag (status_summary dag)

  -- "Use inner counts if available"
  unfoldable pub final_counts : DagRow → NodeSummary → NodeSummary
  unfolding status_summary aggregate_inner_status
  final_counts dag summary =
      let inner =
        (elim (aggregate_inner_status monitor.files dag (status_summary dag))
          as (λ _. NodeSummary) [ none ↦ status_summary dag | some total ↦ total ]) in
      if ltb 0 inner.done then inner else summary

  abbrev pub end_result : DagRow → NodeSummary → DagStatus → DagPollResult
  end_result dag summary status = record {
    dag_id = dag.id;
    status = status;
    nodes_idle = 0;
    nodes_running = 0;
    nodes_done = (final_counts dag summary).done;
    nodes_failed = (final_counts dag summary).failed;
    nodes_held = 0;
    newly_completed_work_units = detected dag;
  }

  unfoldable pub end_dag : DagRow → NodeSummary → DagStatus → M DagPollResult
  unfolding status_summary detect_completed_work_units final_counts with_wu_counts update_dag
  end_dag dag summary status =
      update (
        update_dag dag.id (λ d. record d {
          status = status;
          nodes_done = (final_counts dag summary).done;
          nodes_failed = (final_counts dag summary).failed;
          nodes_running = 0;
          nodes_idle = 0;
          nodes_held = 0;
          node_counts = with_wu_counts summary dag.node_counts;
          completed_work_units = with_completed (detected dag) dag;
        }))
      >> pure (end_result dag summary status)

  unfoldable pub end_with : DagRow → Option DagStatus → M DagPollResult
  unfolding final_summary end_dag
  end_with dag none = pure (unchanged dag)
  end_with dag (some status) = end_dag dag (final_summary dag) status

  unfoldable pub handle_dag_completion : DagRow → M DagPollResult
  unfolding final_summary final_status end_with
  handle_dag_completion dag = end_with dag (final_status (final_summary dag))

  unfoldable pub write_file : CondorCall → M (Unit {0})
  write_file call s = (return tt, record s { calls = s.calls ++ call ∷ [] })

  -- `_update_sub_file_memory`; its errors are caught.
  unfoldable pub write_sub_file : HeldJob → ℕ → M (Unit {0})
  unfolding write_file
  write_sub_file job new_mem =
      if is_blank job.iwd
      then done
      else write_file (update_sub_file job.iwd (append job.node_name ".sub") new_mem)

  -- A memory that can be raised is raised, in the pool and in the submit file, and the job is
  -- released.
  unfoldable pub raise_memory : HeldJob → Option ℕ → M (Unit {0})
  unfolding perform write_sub_file
  raise_memory job none = done
  raise_memory job (some new_mem) = do
    perform monitor.condor (edit_job_attr job.cluster_id job.proc_id "RequestMemory" new_mem)
    write_sub_file job new_mem
    perform monitor.condor (release_jobs job.cluster_id job.proc_id)

  unfoldable pub recover_job : HeldJob → M (Unit {0})
  unfolding bump_memory raise_memory
  recover_job job =
      if job.hold_reason_code == 34
      then raise_memory job (bump_memory monitor.max_memory_per_core job)
      else done

  unfoldable pub recover_jobs : Answer (List HeldJob) → M (Unit {0})
  unfolding for_each recover_job
  recover_jobs unreachable = done
  recover_jobs (answer held_jobs) = for_each held_jobs recover_job

  unfoldable pub recover_held : DagRow → ℕ → M (Unit {0})
  unfolding recover_jobs
  recover_held dag cluster_id s =
      recover_jobs (monitor.scheduler.held_jobs s.calls cluster_id dag.schedd_name) s

  unfoldable pub held_oom_jobs : DagRow → NodeSummary → Option ℕ → M (Unit {0})
  unfolding recover_held
  held_oom_jobs dag summary none = done
  held_oom_jobs dag summary (some cluster_id) =
      if ltb 0 summary.held then recover_held dag cluster_id else done

  -- `_handle_held_oom_jobs`, behind `inner_summary.held > 0 and dag.dagman_cluster_id`
  unfoldable pub handle_held_oom_jobs : DagRow → NodeSummary → M (Unit {0})
  unfolding held_oom_jobs
  handle_held_oom_jobs dag summary = held_oom_jobs dag summary dag.dagman_cluster_id

  -- `_count_jobs_from_condor`
  unfoldable pub count_jobs_from_condor : DagRow → State → Option NodeSummary
  count_jobs_from_condor dag s = elim dag.dagman_cluster_id [
    | none ↦ none
    | some cluster_id ↦ elim (monitor.scheduler.count_dag_jobs s.calls cluster_id dag.schedd_name) [
      | unreachable ↦ none
      | answer none ↦ none
      | answer (some (total, counts)) ↦ if total == 0 then none else some counts
    ]
  ]

  -- The counts for display: of the inner files, else of the pool, else of the outer file.
  unfoldable pub display_summary : DagRow → NodeSummary → State → NodeSummary
  unfolding aggregate_inner_status count_jobs_from_condor
  display_summary dag outer s = elim (aggregate_inner_status monitor.files dag outer) [
    | some total ↦ total
    | none ↦ elim (count_jobs_from_condor dag s) [ none ↦ outer | some counts ↦ counts ]
  ]

  -- "Update DAG row with current counts"
  abbrev pub running_row : NodeSummary → NodeSummary → DagRow → List CompletedUnit → DagRow → DagRow
  running_row outer shown dag newly_completed d = record d {
    nodes_idle = shown.idle;
    nodes_running = shown.running;
    nodes_done = shown.done;
    nodes_failed = shown.failed;
    nodes_held = shown.held;
    total_nodes = shown.idle + shown.running + shown.done + shown.failed + shown.held;
    node_counts = with_wu_counts outer dag.node_counts;
    status = DagStatus.running;
    completed_work_units = with_completed newly_completed dag;
  }

  -- "DAGMan alive", with the counts for display.
  unfoldable pub poll_shown : DagRow → NodeSummary → M DagPollResult
  unfolding status_summary detect_completed_work_units update_dag handle_held_oom_jobs
  poll_shown dag shown =
      update (update_dag dag.id (running_row (status_summary dag) shown dag (detected dag)))
      >> handle_held_oom_jobs dag shown
      >> pure (record {
        dag_id = dag.id;
        status = DagStatus.running;
        nodes_idle = shown.idle;
        nodes_running = shown.running;
        nodes_done = shown.done;
        nodes_failed = shown.failed;
        nodes_held = shown.held;
        newly_completed_work_units = detected dag;
      })

  unfoldable pub poll_alive : DagRow → M DagPollResult
  unfolding status_summary display_summary poll_shown
  poll_alive dag s = poll_shown dag (display_summary dag (status_summary dag) s) s

  -- By the status of DAGMan's job: 3 is removed, 4 is completed.
  unfoldable pub poll_job : DagRow → Option ℕ → M DagPollResult
  unfolding handle_dag_completion poll_alive
  poll_job dag none = handle_dag_completion dag
  poll_job dag (some job_status) =
      if job_status == 3 || job_status == 4 then handle_dag_completion dag else poll_alive dag

  unfoldable pub poll_answer : DagRow → Answer (Option ℕ) → M DagPollResult
  unfolding poll_job
  poll_answer dag unreachable = pure (unchanged dag)
  poll_answer dag (answer status) = poll_job dag status

  unfoldable pub poll_dag : DagRow → M DagPollResult
  unfolding poll_answer
  poll_dag dag s =
      poll_answer dag (monitor.scheduler.job_status s.calls dag.schedd_name dag.dagman_cluster_id) s
