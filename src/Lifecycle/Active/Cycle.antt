-- ===== src/Lifecycle/Active/Cycle.antt =====
-- `_handle_active` itself.
use condora.Base.{ℕ, String, List, [], ◌∷◌, Option, none, some, is_empty, if◌then◌else◌}
use condora.Enums.{RequestStatus, DagStatus, is_live}
use condora.Rows.{RequestRow, WorkflowRow, DagRow}
use condora.Config.{Settings}
use condora.Repository.{get_workflow_by_request, get_dag, update_dag, get_active_dags_for_workflow}
use condora.Effects.{M, ◌>>=◌, ◌>>◌, pure, query, done, update, for_each}
use condora.Monitor.Poll.{Monitor, poll_dag}
use condora.Lifecycle.Transitions.{transition, target_reached}
use condora.Lifecycle.Stop.{head_dag}
use condora.Lifecycle.Evaluate.{handle_single_dag_failure}
use condora.Lifecycle.Active.{
  ActiveWork, RoundSettings, expect, cleanup_condor_dag, aggregate_workflow_counts,
  maybe_advance_round, plan_next, maybe_escalate_tail_priority,
}
use condora.Lifecycle.Active.Round.{refetch, handle_dag_round_completion}
use condora.Lifecycle.Active.Units.{process_completed_wus, retry_outputs}

-- What goes on: the request and its workflow, or nothing where the handler has returned.
abbrev pub Next : Type 0
Next = Option (RequestRow × WorkflowRow)

-- The row `dag` is the session's object, which an update has refreshed.
abbrev pub refreshed : DagRow → Option DagRow → DagRow
refreshed d none = d
refreshed d (some current) = current

module _ (work : ActiveWork) (settings : Settings) (rounds : RoundSettings) (now : ℕ) where
  unfoldable pub finish_dag : RequestRow → DagRow → M (Unit {0})
  unfolding get_dag cleanup_condor_dag handle_dag_round_completion
  finish_dag r d = do
    dag ← query (get_dag d.id) >>= expect
    cleanup_condor_dag work settings rounds dag
    handle_dag_round_completion work settings now r dag

  unfoldable pub fail_one : RequestRow → WorkflowRow → DagRow → M (Unit {0})
  unfolding handle_single_dag_failure
  fail_one r w d =
      handle_single_dag_failure settings now work.error_handler work.has_site_manager r w d

  -- "Per-DAG: site exclusion, tail escalation (running DAGs only)"
  unfoldable pub tend_dag : WorkflowRow → Option DagRow → M (Unit {0})
  unfolding maybe_escalate_tail_priority
  tend_dag w none = done
  tend_dag w (some d) =
      if is_live d.status
      then (work.check_site_exclusions d w >> maybe_escalate_tail_priority work settings rounds d)
      else done

  unfoldable pub tend_again : RequestRow → WorkflowRow → DagRow → M Next
  unfolding get_dag tend_dag
  tend_again r w d = do dag ← query (get_dag d.id); tend_dag w dag; pure (some (r, w))

  -- By the status of the poll.
  unfoldable pub after_dag : RequestRow → WorkflowRow → DagRow → DagStatus → M Next
  unfolding finish_dag fail_one refetch tend_again
  after_dag r w d DagStatus.completed = finish_dag r d >> refetch r.request_name
  after_dag r w d DagStatus.partial = fail_one r w d >> refetch r.request_name
  after_dag r w d DagStatus.failed = fail_one r w d >> refetch r.request_name
  after_dag r w d _ = tend_again r w d

  unfoldable pub follow_dag : Monitor → RequestRow → WorkflowRow → DagRow → M Next
  unfolding poll_dag process_completed_wus get_dag after_dag
  follow_dag monitor r w d = do
    result ← poll_dag monitor d
    process_completed_wus work now r w result
    current ← query (get_dag d.id)
    after_dag r w (refreshed d current) result.status

  -- "Poll each active DAG"
  unfoldable pub follow_dags : Monitor → List DagRow → Next → M Next
  unfolding follow_dag
  follow_dags monitor [] next = pure next
  follow_dags monitor (d ∷ dags) none = pure none
  follow_dags monitor (d ∷ dags) (some (r, w)) = do
    next ← follow_dag monitor r w d
    follow_dags monitor dags next

  unfoldable pub finish_head : RequestRow → WorkflowRow → DagRow → M Next
  unfolding cleanup_condor_dag handle_dag_round_completion
  finish_head r w d =
      cleanup_condor_dag work settings rounds d
      >> handle_dag_round_completion work settings now r d
      >> pure (some (r, w))

  -- The head DAG, where no DAG is active: it may have ended since the last cycle.
  unfoldable pub close_head : RequestRow → WorkflowRow → DagRow → DagStatus → M Next
  unfolding finish_head fail_one
  close_head r w d DagStatus.completed =
      if work.is_recorded w d then pure (some (r, w)) else finish_head r w d
  close_head r w d DagStatus.partial = fail_one r w d >> pure none
  close_head r w d DagStatus.failed = fail_one r w d >> pure none
  close_head r w d _ = pure (some (r, w))

  unfoldable pub check_head : RequestRow → WorkflowRow → List DagRow → Option DagRow → M Next
  unfolding close_head
  check_head r w [] (some d) = close_head r w d d.status
  check_head r w active_dags head = pure (some (r, w))

  unfoldable pub drop_dag : DagRow → M (Unit {0})
  unfolding cleanup_condor_dag update_dag
  drop_dag d =
      cleanup_condor_dag work settings rounds d
      >> update (update_dag d.id (λ d'. record d' { status = DagStatus.completed }))

  -- The end of the request at its target, or the next round.
  unfoldable pub advance : String → WorkflowRow → List DagRow → M (Unit {0})
  unfolding target_reached for_each drop_dag transition maybe_advance_round plan_next
  advance request_name w remaining_active =
      if target_reached w
      then (for_each remaining_active drop_dag
          >> transition now request_name RequestStatus.completed)
      else if is_empty remaining_active
      then plan_next work settings rounds work.planner request_name
      else maybe_advance_round work settings rounds request_name w

  unfoldable pub advance_next : Next → M (Unit {0})
  unfolding get_active_dags_for_workflow advance
  advance_next none = done
  advance_next (some (r, w)) = do
    remaining_active ← query (get_active_dags_for_workflow w.id)
    advance r.request_name w remaining_active

  unfoldable pub count_and_advance : RequestRow → WorkflowRow → M (Unit {0})
  unfolding aggregate_workflow_counts refetch advance_next
  count_and_advance r w = do
    aggregate_workflow_counts work settings rounds w
    next ← refetch r.request_name
    advance_next next

  unfoldable pub after_polls : Next → M (Unit {0})
  unfolding retry_outputs count_and_advance
  after_polls none = done
  after_polls (some (r, w)) = do
    held ← retry_outputs work now work.output_manager r w
    if held then done else count_and_advance r w

  unfoldable pub follow_workflow : Monitor → RequestRow → WorkflowRow → M (Unit {0})
  unfolding get_active_dags_for_workflow head_dag check_head follow_dags after_polls
  follow_workflow monitor r w = do
    active_dags ← query (get_active_dags_for_workflow w.id)
    head ← query (head_dag w)
    start ← check_head r w active_dags head
    next ← follow_dags monitor active_dags start
    after_polls next

  unfoldable pub handle_workflow : Monitor → RequestRow → Option WorkflowRow → M (Unit {0})
  unfolding follow_workflow
  handle_workflow monitor r none = done
  handle_workflow monitor r (some w) = follow_workflow monitor r w

  unfoldable pub handle_active : Option Monitor → RequestRow → M (Unit {0})
  unfolding get_workflow_by_request handle_workflow
  handle_active none r = done
  handle_active (some monitor) r = do
    workflow ← query (get_workflow_by_request r.request_name)
    handle_workflow monitor r workflow
