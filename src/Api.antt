-- ===== src/Api.antt =====
-- src/condora/api/requests.py: the endpoints with which an operator ends, holds back or resumes a
-- request. `condor` is `app.state.condor`, which may be missing, and `now` the moment of the call.
pub mod Parts
pub mod Outcome
pub mod Serve
mod Examples
use condora.Base.{ℕ, String, Bool, true, false, Option, none, some, if◌then◌else◌}
use condora.Enums.{RequestStatus, WorkflowStatus, is_live, is_terminal}
use condora.Rows.{RequestRow, WorkflowRow, DagRow, BlockRow}
use condora.Repository.{
  get_request, get_workflow_by_request, update_workflow, get_dag, update_dag, list_dags,
}
use condora.Effects.{
  remove_job, Condor, M, ◌>>=◌, ◌>>◌, pure, query, done, update, try_quietly, perform, for_each,
}
use condora.Lifecycle.Transitions.{transition}
use condora.Lifecycle.Stop.{fail_outputs}

-- What the caller gets: an `HTTPException` with its status code, the row of the request, or its
-- previous status and the new one.
pub data Response : Type 0 where
  http_exception : ℕ → Response
  shown : Option RequestRow → Response
  changed : RequestStatus → RequestStatus → Response

abbrev pub is_stoppable : RequestStatus → Bool
is_stoppable RequestStatus.active = true
is_stoppable RequestStatus.pilot_running = true
is_stoppable _ = false

abbrev pub is_abortable : RequestStatus → Bool
is_abortable status = if is_terminal status then false else true

abbrev pub is_releasable : RequestStatus → Bool
is_releasable RequestStatus.held = true
is_releasable RequestStatus.paused = true
is_releasable _ = false

-- PAUSED needs a recovery; HELD goes straight to the queue.
abbrev pub release_target : RequestStatus → RequestStatus
release_target RequestStatus.paused = RequestStatus.resubmitting
release_target _ = RequestStatus.queued

abbrev pub is_stopping : RequestStatus → Bool
is_stopping RequestStatus.stopping = true
is_stopping _ = false

abbrev pub may_fail : RequestStatus → Bool
may_fail RequestStatus.held = true
may_fail RequestStatus.partial = true
may_fail RequestStatus.paused = true
may_fail RequestStatus.active = true
may_fail RequestStatus.pilot_running = true
may_fail RequestStatus.stopping = true
may_fail _ = false

-- 404 where the request is not there, 400 where its status does not admit the action.
unfoldable pub admitting : (RequestStatus → Bool) → String → (RequestRow → M Response) → M Response
unfolding get_request
admitting admits request_name action = do
  existing ← query (get_request request_name)
  elim existing [
    | none ↦ pure (http_exception 404)
    | some r ↦ if admits r.status then action r else pure (http_exception 400)
  ]

-- `if workflow and workflow.dag_id`
unfoldable pub on_head_dag : String → (ℕ → M (Unit {0})) → M (Unit {0})
unfolding get_workflow_by_request
on_head_dag request_name body = do
  workflow ← query (get_workflow_by_request request_name)
  elim workflow [ none ↦ done | some w ↦ elim w.dag_id [ none ↦ done | some dag_id ↦ body dag_id ] ]

-- Sets the reason only.
unfoldable pub mark_failing : String → M (Unit {0})
unfolding on_head_dag get_dag update_dag
mark_failing request_name = on_head_dag request_name (λ dag_id. do
  dag ← query (get_dag dag_id)
  elim dag [
    | none ↦ done
    | some d ↦
        update (update_dag dag_id (λ d'. record d' { stop_reason = "FAIL: operator-initiated" }))
  ])

module _ (condor : Option Condor) (now : ℕ) where
  -- A call that fails is logged; the lifecycle manager tries it again.
  unfoldable pub remove_live : ℕ → M (Unit {0})
  unfolding get_dag perform
  remove_live dag_id = do
    dag ← query (get_dag dag_id)
    elim dag [
      | none ↦ done
      | some d ↦
          if is_live d.status
          then elim condor [
            | none ↦ done
            | some c ↦ try_quietly (perform c (remove_job d.schedd_name d.dagman_cluster_id))
          ]
          else done
    ]

  unfoldable pub stop_head : String → String → M (Unit {0})
  unfolding on_head_dag remove_live update_dag
  stop_head reason request_name = on_head_dag request_name (λ dag_id. do
    remove_live dag_id
    update
        (update_dag dag_id (λ d. record d { stop_requested_at = some now; stop_reason = reason })))

  unfoldable pub abort_request : String → M Response
  unfolding admitting transition get_request
  abort_request request_name = admitting is_abortable request_name (λ existing. do
    transition now request_name RequestStatus.aborted
    row ← query (get_request request_name)
    pure (shown row))

  unfoldable pub begin_stop : String → String → RequestRow → M Response
  unfolding stop_head transition
  begin_stop reason request_name existing = do
    stop_head reason request_name
    transition now request_name RequestStatus.stopping
    pure (changed existing.status RequestStatus.stopping)

  unfoldable pub stop_request : String → String → M Response
  unfolding admitting begin_stop
  stop_request reason request_name =
      admitting is_stoppable request_name (begin_stop reason request_name)

  unfoldable pub release_request : String → M Response
  unfolding admitting transition
  release_request request_name = admitting is_releasable request_name (λ existing. do
    transition now request_name (release_target existing.status)
    pure (changed existing.status (release_target existing.status)))

  unfoldable pub fail_workflow_now : WorkflowRow → M (Unit {0})
  unfolding remove_live fail_outputs update_workflow
  fail_workflow_now w = do
    elim w.dag_id [ none ↦ done | some dag_id ↦ remove_live dag_id ]
    fail_outputs w.id
    update (update_workflow w.id (λ w'. record w' { status = WorkflowStatus.failed }))

  -- HELD, PARTIAL or PAUSED: no DAG has to end first.
  unfoldable pub fail_now : String → RequestRow → M Response
  unfolding fail_workflow_now get_workflow_by_request transition
  fail_now request_name existing = do
    workflow ← query (get_workflow_by_request request_name)
    elim workflow [ none ↦ done | some w ↦ fail_workflow_now w ]
    transition now request_name RequestStatus.failed
    pure (changed existing.status RequestStatus.failed)

  unfoldable pub fail_request_endpoint : String → M Response
  unfolding admitting begin_stop mark_failing fail_now
  fail_request_endpoint request_name = admitting may_fail request_name (λ existing.
      if is_stoppable existing.status
      then begin_stop "FAIL: operator-initiated" request_name existing
      else if is_stopping existing.status
      then (mark_failing request_name >> pure (changed existing.status RequestStatus.stopping))
      else fail_now request_name existing)
