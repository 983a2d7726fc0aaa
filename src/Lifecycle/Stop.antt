-- ===== src/Lifecycle/Stop.antt =====
-- `initiate_clean_stop` and `_handle_stopping`.
use text.Mathlib.Text.{starts_with}
use condora.Base.{
  ℕ, String, Bool, true, false, List, [], ◌∷◌, ◌++◌, Option, none, some, ◌&&◌, ◌||◌, ◌==◌, not,
  is_empty, any, nat_eq, if◌then◌else◌,
}
use condora.Enums.{
  RequestStatus, WorkflowStatus, DagStatus, BlockStatus, is_live, is_settled, is_open_block,
}
use condora.Rows.{WorkflowRow, DagRow, BlockRow}
use condora.Repository.{
  Db, get_request, get_workflow_by_request, update_workflow, get_dag, update_dag,
  get_active_dags_for_workflow, list_dags, get_processing_blocks, update_processing_block,
}
use condora.Effects.{
  remove_job, remove_dag_children, Condor, M, ◌>>=◌, ◌>>◌, pure, query, done, update, try_quietly,
  perform, job_alive, for_each,
}
use condora.Lifecycle.Transitions.{transition}

abbrev pub is_pilot_running : RequestStatus → Bool
is_pilot_running RequestStatus.pilot_running = true
is_pilot_running _ = false

-- `await self.db.get_dag(workflow.dag_id)` behind `if workflow.dag_id`.
unfoldable pub head_dag : WorkflowRow → Db → Option DagRow
unfolding get_dag
head_dag w db = elim w.dag_id [ none ↦ none | some dag_id ↦ get_dag dag_id db ]

-- A list of the DAG, if it is there and still submitted or running.
abbrev pub if_live : Option DagRow → List DagRow
if_live none = []
if_live (some d) = if is_live d.status then d ∷ [] else []

unfoldable pub is_fail_requested : DagRow → Bool
is_fail_requested d = starts_with d.stop_reason "FAIL:"

unfoldable pub fail_dag : DagRow → M (Unit {0})
unfolding update_dag
fail_dag d =
    if is_settled d.status
    then done
    else update (update_dag d.id (λ d'. record d' { status = DagStatus.failed }))

unfoldable pub fail_block : BlockRow → M (Unit {0})
unfolding update_processing_block
fail_block b =
    if is_open_block b.status
    then update
        (update_processing_block b.id (λ b'. record b' { status = BlockStatus.failed_block }))
    else done

-- "Mark all non-terminal DAGs as FAILED" and the open blocks too.
unfoldable pub fail_outputs : ℕ → M (Unit {0})
unfolding fail_dag fail_block list_dags get_processing_blocks for_each
fail_outputs workflow_id = do
  dags ← query (list_dags workflow_id)
  for_each dags fail_dag
  blocks ← query (get_processing_blocks workflow_id)
  for_each blocks fail_block

unfoldable pub mark_stopped : DagRow → M (Unit {0})
unfolding update_dag
mark_stopped d = update (update_dag d.id (λ d'. record d' { status = DagStatus.stopped }))

-- The active DAGs, and the head DAG where it is live and not among them.
abbrev pub with_head : List DagRow → Option DagRow → List DagRow
with_head active none = active
with_head active (some d) =
    if any (λ a. a.id == d.id) active then active else active ++ if_live (some d)

abbrev pub head_fails : Option DagRow → Bool
head_fails none = false
head_fails (some d) = is_fail_requested d

abbrev pub is_none : Option DagRow → Bool
is_none none = true
is_none (some d) = false

module _ (condor : Condor) (now : ℕ) where
  -- The body of the loop of `initiate_clean_stop`.
  unfoldable pub request_stop : String → DagRow → M (Unit {0})
  unfolding perform update_dag
  request_stop reason d = do
    perform condor (remove_job d.schedd_name d.dagman_cluster_id)
    update
        (update_dag d.id (λ d'. record d' { stop_requested_at = some now; stop_reason = reason }))

  unfoldable pub begin_stopping : String → ℕ → M (Unit {0})
  unfolding update_workflow transition
  begin_stopping request_name workflow_id = do
    update (update_workflow workflow_id (λ w. record w { status = WorkflowStatus.stopping }))
    transition now request_name RequestStatus.stopping

  unfoldable pub stop_dags : String → String → WorkflowRow → M (Unit {0})
  unfolding request_stop begin_stopping get_active_dags_for_workflow head_dag for_each
  stop_dags request_name reason w = do
    active ← query (get_active_dags_for_workflow w.id)
    head ← query (head_dag w)
    let dags = if is_empty active then if_live head else active
    if is_empty dags
        then done
        else (for_each dags (request_stop reason) >> begin_stopping request_name w.id)

  unfoldable pub stop_pilot : String → WorkflowRow → ℕ → M (Unit {0})
  unfolding perform begin_stopping
  stop_pilot request_name w pilot_cluster_id = do
    perform condor (remove_job w.pilot_schedd (some pilot_cluster_id))
    begin_stopping request_name w.id

  unfoldable pub stop_workflow : String → String → RequestStatus → WorkflowRow → M (Unit {0})
  unfolding stop_pilot stop_dags
  stop_workflow request_name reason status w = elim w.pilot_cluster_id [
    | none ↦ stop_dags request_name reason w
    | some pilot_cluster_id ↦
        if is_pilot_running status
        then stop_pilot request_name w pilot_cluster_id
        else stop_dags request_name reason w
  ]

  unfoldable pub initiate_clean_stop : String → String → M (Unit {0})
  unfolding stop_workflow get_request get_workflow_by_request
  initiate_clean_stop request_name reason = do
    request ← query (get_request request_name)
    workflow ← query (get_workflow_by_request request_name)
    elim request [
      | none ↦ done
      | some r ↦ elim workflow [
        | none ↦ done
        | some w ↦ stop_workflow request_name reason r.status w
      ]
    ]

  -- The first loop of `_handle_stopping`: whether all DAGs are gone, and whether one of those that
  -- are gone was to fail.
  unfoldable pub check_stopped : List DagRow → Bool → Bool → M (Bool × Bool)
  unfolding job_alive perform is_fail_requested
  check_stopped [] all_stopped fail_requested = pure (all_stopped, fail_requested)
  check_stopped (d ∷ dags) all_stopped fail_requested = do
    alive ← job_alive condor d.schedd_name d.dagman_cluster_id
    if alive
        then try_quietly (perform condor (remove_job d.schedd_name d.dagman_cluster_id))
        else done
    check_stopped dags (all_stopped && not alive)
        (if alive then fail_requested else (fail_requested || is_fail_requested d))

  unfoldable pub remove_children : DagRow → M (Unit {0})
  unfolding perform
  remove_children d =
      try_quietly (perform condor (remove_dag_children d.schedd_name d.dagman_cluster_id))

  -- All DAGs are gone: FAILED or PAUSED.
  unfoldable pub finish_stop : String → WorkflowRow → List DagRow → Bool → M (Unit {0})
  unfolding fail_outputs update_workflow transition mark_stopped for_each
  finish_stop request_name w dags fail_requested =
      if fail_requested
      then (fail_outputs w.id
          >> (update (update_workflow w.id (λ w'. record w' { status = WorkflowStatus.failed }))
              >> transition now request_name RequestStatus.failed))
      else (for_each dags mark_stopped >> transition now request_name RequestStatus.paused)

  unfoldable pub stop_progress : String → WorkflowRow → M (Unit {0})
  unfolding head_dag get_active_dags_for_workflow check_stopped remove_children finish_stop for_each
  stop_progress request_name w = do
    active ← query (get_active_dags_for_workflow w.id)
    head ← query (head_dag w)
    let dags = with_head active head
    if is_empty dags && is_none head then done else do
      (all_stopped, fail_requested) ← check_stopped dags true false
      if not all_stopped
          then done
          else (for_each dags remove_children
              >> finish_stop request_name w dags (fail_requested || head_fails head))

  unfoldable pub handle_stopping : String → M (Unit {0})
  unfolding get_workflow_by_request stop_progress
  handle_stopping request_name = do
    workflow ← query (get_workflow_by_request request_name)
    elim workflow [ none ↦ done | some w ↦ stop_progress request_name w ]
