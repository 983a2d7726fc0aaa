-- ===== src/Lifecycle/Active/Round.antt =====
-- `_handle_dag_round_completion`, and what follows a DAG that ended.
use condora.Base.{
  ℕ, String, Bool, true, false, List, [], ◌∷◌, Option, none, some, ◌*◌, ◌&&◌, leb, ltb, is_empty,
  if◌then◌else◌,
}
use condora.Enums.{RequestStatus}
use condora.Rows.{RequestRow, WorkflowRow, DagRow}
use condora.Config.{Settings}
use condora.Repository.{
  get_request, get_workflow_by_request, update_request, get_active_dags_for_workflow,
}
use condora.Effects.{M, ◌>>=◌, ◌>>◌, pure, query, done, update}
use condora.Lifecycle.Transitions.{transition, target_reached}
use condora.Lifecycle.Resubmit.{consume_step}
use condora.Lifecycle.Active.{ActiveWork, expect}

-- The first production step is due: so much of the target was produced.
unfoldable pub is_step_due : RequestRow → WorkflowRow → Bool
is_step_due r w = elim r.production_steps [
  | [] ↦ false
  | step ∷ remaining ↦
      w.is_gen
      && (ltb 0 w.target_events && leb (step.fraction * w.target_events) (100 * w.events_produced))
]

abbrev pub is_active_request : RequestStatus → Bool
is_active_request RequestStatus.active = true
is_active_request _ = false

-- The request and its workflow read again, where the request is still active.
unfoldable pub refetch : String → M (Option (RequestRow × WorkflowRow))
unfolding get_request get_workflow_by_request
refetch request_name = do
  request ← query (get_request request_name)
  workflow ← query (get_workflow_by_request request_name)
  pure (elim request [
    | none ↦ none
    | some r ↦
        if is_active_request r.status
        then elim workflow [ none ↦ none | some w ↦ some (r, w) ]
        else none
  ])

module _ (work : ActiveWork) (settings : Settings) (now : ℕ) where
  -- The transition after a round: COMPLETED at the target, QUEUED where rounds do not overlap.
  unfoldable pub close_round : String → WorkflowRow → List DagRow → M (Unit {0})
  unfolding target_reached transition
  close_round request_name w remaining_active =
      if is_empty remaining_active && target_reached w
      then transition now request_name RequestStatus.completed
      else if is_empty remaining_active && leb settings.max_concurrent_rounds 1
      then transition now request_name RequestStatus.queued
      else done

  -- "Apply production_steps priority demotion between rounds"
  unfoldable pub demote : RequestRow → WorkflowRow → M (Unit {0})
  unfolding is_step_due update_request consume_step
  demote r w =
      if is_step_due r w then update (update_request now r.request_name consume_step) else done

  -- The workflow with its counters of now.
  unfoldable pub latest_workflow : String → M WorkflowRow
  unfolding get_workflow_by_request
  latest_workflow request_name = query (get_workflow_by_request request_name) >>= expect

  unfoldable pub discard_output : WorkflowRow → DagRow → Bool → M (Unit {0})
  discard_output w d throwaway = if throwaway then work.cleanup_pilot_output w d else done

  unfoldable pub settle_round : RequestRow → WorkflowRow → M (Unit {0})
  unfolding get_active_dags_for_workflow demote close_round
  settle_round r w = do
    demote r w
    remaining_active ← query (get_active_dags_for_workflow w.id)
    close_round r.request_name w remaining_active

  unfoldable pub handle_dag_round_completion : RequestRow → DagRow → M (Unit {0})
  unfolding latest_workflow discard_output settle_round
  handle_dag_round_completion r d = do
    before ← latest_workflow r.request_name
    throwaway ← work.complete_round before d
    discard_output before d throwaway
    w ← latest_workflow r.request_name
    settle_round r w
