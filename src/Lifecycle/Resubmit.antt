-- ===== src/Lifecycle/Resubmit.antt =====
-- `_handle_submitted`, `_handle_resubmitting` and `_prepare_recovery`.
use Prim.Native.String.{◌++◌ as append}
use condora.Base.{ℕ, String, Bool, true, false, [], ◌∷◌, Option, none, some, if◌then◌else◌}
use condora.Enums.{RequestStatus, WorkflowStatus, DagStatus, is_live, is_stopped}
use condora.Rows.{RequestRow, WorkflowRow, DagRow}
use condora.Repository.{
  Db, get_request, update_request, get_workflow_by_request, update_workflow, create_dag,
}
use condora.Effects.{M, ◌>>=◌, ◌>>◌, query, done, update}
use condora.Lifecycle.Transitions.{transition}
use condora.Lifecycle.Stop.{head_dag}

-- The columns of a recovery DAG: those of its parent, and a rescue file. The others start at their
-- defaults.
unfoldable pub rescue_row : ℕ → DagRow → String → DagRow
rescue_row workflow_id dag rescue_path = record {
  id = 0;
  workflow_id = workflow_id;
  dag_file_path = dag.dag_file_path;
  submit_dir = dag.submit_dir;
  rescue_dag_path = some rescue_path;
  dagman_cluster_id = none;
  schedd_name = none;
  parent_dag_id = some dag.id;
  stop_requested_at = none;
  stop_reason = "";
  total_nodes = dag.total_nodes;
  total_edges = dag.total_edges;
  node_counts = dag.node_counts;
  nodes_idle = 0;
  nodes_running = 0;
  nodes_done = 0;
  nodes_failed = 0;
  nodes_held = 0;
  total_work_units = dag.total_work_units;
  completed_work_units = dag.completed_work_units;
  round_number = 0;
  status = DagStatus.ready;
}

-- `create_dag` with that row, and the workflow's head moved to it.
unfoldable pub create_rescue : ℕ → DagRow → String → Db → Db
unfolding rescue_row create_dag update_workflow
create_rescue workflow_id dag rescue_path db =
    let dag_id = db.next_id in
    update_workflow workflow_id
      (λ w. record w { dag_id = some dag_id; status = WorkflowStatus.resubmitting })
      (create_dag (rescue_row workflow_id dag rescue_path) db)

-- "Partial production: consume step, demote priority"
unfoldable pub consume_step : RequestRow → RequestRow
consume_step r = elim r.production_steps [
  | [] ↦ r
  | step ∷ remaining ↦ record r { priority = step.priority; production_steps = remaining }
]

abbrev pub has_steps : RequestRow → Bool
has_steps r = elim r.production_steps [ [] ↦ false | step ∷ remaining ↦ true ]

abbrev pub stopped_dag : Option DagRow → Option DagRow
stopped_dag none = none
stopped_dag (some d) = if is_stopped d.status then some d else none

module _ (now : ℕ) where
  unfoldable pub take_step : String → M (Unit {0})
  unfolding get_request update_request consume_step
  take_step request_name = do
    request ← query (get_request request_name)
    elim request [
      | none ↦ done
      | some r ↦ if has_steps r then update (update_request now request_name consume_step) else done
    ]

  unfoldable pub prepare_recovery : String → WorkflowRow → DagRow → M (Unit {0})
  unfolding create_rescue take_step transition
  prepare_recovery request_name w dag = do
    update (create_rescue w.id dag (append dag.dag_file_path ".rescue001"))
    take_step request_name
    transition now request_name RequestStatus.queued

  unfoldable pub resubmit : String → WorkflowRow → M (Unit {0})
  unfolding head_dag prepare_recovery transition
  resubmit request_name w = do
    head ← query (head_dag w)
    elim (stopped_dag head) [
      | none ↦ transition now request_name RequestStatus.queued
      | some d ↦ prepare_recovery request_name w d
    ]

  unfoldable pub handle_resubmitting : String → M (Unit {0})
  unfolding get_workflow_by_request resubmit transition
  handle_resubmitting request_name = do
    workflow ← query (get_workflow_by_request request_name)
    elim workflow [
      | none ↦ transition now request_name RequestStatus.queued
      | some w ↦ resubmit request_name w
    ]

  -- The import by the workflow manager is the argument `import_request`; there may be no manager.
  unfoldable pub handle_submitted : Option (String → M (Unit {0})) → String → M (Unit {0})
  unfolding get_workflow_by_request head_dag transition
  handle_submitted none request_name = done
  handle_submitted (some import_request) request_name = do
    existing ← query (get_workflow_by_request request_name)
    elim existing [
      | none ↦ import_request request_name >> transition now request_name RequestStatus.queued
      | some w ↦ do
        head ← query (head_dag w)
        transition now request_name (elim head [
          | none ↦ RequestStatus.queued
          | some d ↦ if is_live d.status then RequestStatus.active else RequestStatus.queued
        ])
    ]
