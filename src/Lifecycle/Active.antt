-- ===== src/Lifecycle/Active.antt =====
-- `_handle_active`: the polls of an active request's DAGs, and what follows from them. The record of
-- a round's metrics and its adaptive sizing (`complete_round`), the exclusion of sites in submit
-- files and the removal of a pilot's output are operations of `ActiveWork`.
pub mod Round
pub mod Units
pub mod Cycle
use condora.Base.{
  ℕ, String, Bool, true, false, List, [], ◌∷◌, Option, none, some, ◌+◌, ◌*◌, ◌&&◌, ◌||◌, ◌==◌, not,
  ltb, leb, is_empty, length, sum_of, string_eq, nat_eq, if◌then◌else◌,
}
use condora.Base.Dict.{get_or, insert}
use condora.Enums.{RequestStatus, DagStatus, is_live}
use condora.Rows.{RequestRow, WorkflowRow, DagRow}
use condora.Config.{Settings}
use condora.Repository.{
  get_workflow_by_request, get_request, get_dag, update_dag, update_workflow,
  get_active_dags_for_workflow,
}
use condora.Effects.{
  Condor, remove_job, remove_dag_children, edit_dag_payload_attr, M, ◌>>=◌, ◌>>◌, pure, query, done,
  throw, value_error, update, try_quietly, perform, for_each,
}
use condora.Monitor.{wu_names}
use condora.Monitor.Poll.{Monitor}
use condora.Output.Rucio.{OutputManager, Stageout}
use condora.Lifecycle.Transitions.{target_reached}
use condora.Lifecycle.Admission.{Planner}
use condora.Lifecycle.Evaluate.{FailureFiles}

-- The settings of rounds; fractions are in percent.
pub record RoundSettings : Type 0 where
  pub round_advance_completion_fraction : ℕ
  pub round_advance_running_fraction : ℕ
  pub tail_escalation_threshold : ℕ
  pub tail_escalation_priority : ℕ

-- What the handler works with. `complete_round` tells whether the round was a throwaway pilot.
pub record ActiveWork : Type 0 where
  pub condor : Condor
  pub monitor : Option Monitor
  pub output_manager : Option OutputManager
  pub planner : Option Planner
  pub error_handler : Option FailureFiles
  pub has_site_manager : Bool
  pub stageout : WorkflowRow → Stageout
  pub pilot_throwaway : WorkflowRow → Bool
  pub is_recorded : WorkflowRow → DagRow → Bool
  pub complete_round : WorkflowRow → DagRow → M Bool
  pub cleanup_pilot_output : WorkflowRow → DagRow → M (Unit {0})
  pub update_round_wu_metrics : WorkflowRow → DagRow → M (Unit {0})
  pub check_site_exclusions : DagRow → WorkflowRow → M (Unit {0})

-- A row that the code takes to be there; without it an attribute of `None` is read, which raises.
abbrev pub expect : {A : Type 0} → Option A → M A
expect none = throw value_error
expect (some a) = pure a

module _ (work : ActiveWork) (settings : Settings) (rounds : RoundSettings) where
  unfoldable pub cleanup_cluster : DagRow → Option ℕ → M (Unit {0})
  unfolding perform
  cleanup_cluster d none = done
  cleanup_cluster d (some cluster_id) =
      try_quietly (perform work.condor (remove_dag_children d.schedd_name (some cluster_id)))
      >> try_quietly (perform work.condor (remove_job d.schedd_name (some cluster_id)))

  -- `_cleanup_condor_dag`
  unfoldable pub cleanup_condor_dag : DagRow → M (Unit {0})
  unfolding cleanup_cluster
  cleanup_condor_dag d = cleanup_cluster d d.dagman_cluster_id

  -- `_aggregate_workflow_counts`
  unfoldable pub aggregate_workflow_counts : WorkflowRow → M (Unit {0})
  unfolding get_active_dags_for_workflow update_workflow
  aggregate_workflow_counts w = do
    active_dags ← query (get_active_dags_for_workflow w.id)
    update (
        update_workflow w.id (λ w'. record w' {
          total_nodes = sum_of (λ d. d.total_nodes) active_dags;
          nodes_done = sum_of (λ d. d.nodes_done) active_dags;
          nodes_failed = sum_of (λ d. d.nodes_failed) active_dags;
          nodes_running = sum_of (λ d. d.nodes_running) active_dags;
          nodes_queued = sum_of (λ d. d.nodes_idle) active_dags;
        }))

  -- The DAG that was created last.
  unfoldable pub latest_dag : List DagRow → Option DagRow
  latest_dag [] = none
  latest_dag (d ∷ dags) = elim (latest_dag dags) [ none ↦ some d | some later ↦ some later ]

  -- Steps 3 and 4 of `_maybe_advance_round`: enough units of the latest DAG are done, and enough of
  -- the schedulable nodes run.
  abbrev pub is_far_enough : DagRow → Bool
  is_far_enough d =
      not (d.total_work_units == 0)
      && leb (rounds.round_advance_completion_fraction * d.total_work_units)
          (100 * length (wu_names d.completed_work_units))

  unfoldable pub is_running_enough : List DagRow → Bool
  is_running_enough active_dags =
      let total_running = sum_of (λ d. d.nodes_running) active_dags in
      let total_schedulable = sum_of (λ d. d.nodes_running + d.nodes_idle) active_dags in
      total_schedulable == 0
      || leb (rounds.round_advance_running_fraction * total_schedulable) (100 * total_running)

  unfoldable pub may_advance : WorkflowRow → List DagRow → Bool
  unfolding target_reached latest_dag is_running_enough
  may_advance w active_dags =
      not (target_reached w)
      && (ltb (length active_dags) settings.max_concurrent_rounds
          && ((elim (latest_dag active_dags) [ none ↦ false | some d ↦ is_far_enough d ])
              && is_running_enough active_dags))

  unfoldable pub plan_workflow : Planner → Option WorkflowRow → M (Unit {0})
  plan_workflow planner none = done
  plan_workflow planner (some w) = planner.plan_production_dag w true >> done

  -- A plan of the next round; its errors are logged.
  unfoldable pub plan_next : Option Planner → String → M (Unit {0})
  unfolding get_workflow_by_request plan_workflow
  plan_next none request_name = done
  plan_next (some planner) request_name =
      try_quietly (query (get_workflow_by_request request_name) >>= plan_workflow planner)

  unfoldable pub maybe_advance_round : String → WorkflowRow → M (Unit {0})
  unfolding get_active_dags_for_workflow may_advance plan_next
  maybe_advance_round request_name w = do
    active_dags ← query (get_active_dags_for_workflow w.id)
    if may_advance w active_dags then plan_next work.planner request_name else done

  -- At the tail: most units are done, and the jobs were not escalated before.
  unfoldable pub is_at_tail : ℕ → DagRow → Bool
  is_at_tail total_wus d =
      leb (rounds.tail_escalation_threshold * total_wus) (100 * get_or "wus_done" 0 d.node_counts)
      && get_or "_tail_escalated" 0 d.node_counts == 0

  unfoldable pub escalate : DagRow → Option ℕ → M (Unit {0})
  unfolding perform update_dag insert
  escalate d none = done
  escalate d (some cluster_id) = try_quietly (
      perform work.condor
        (edit_dag_payload_attr cluster_id "Priority" rounds.tail_escalation_priority)
      >> update (
          update_dag d.id
            (λ d'. record d' { node_counts = insert "_tail_escalated" 1 d.node_counts })))

  unfoldable pub escalate_at_tail : ℕ → Option DagRow → M (Unit {0})
  unfolding is_at_tail escalate
  escalate_at_tail total_wus none = done
  escalate_at_tail total_wus (some d) =
      if is_at_tail total_wus d then escalate d d.dagman_cluster_id else done

  -- `_maybe_escalate_tail_priority`
  unfoldable pub maybe_escalate_tail_priority : DagRow → M (Unit {0})
  unfolding get_dag escalate_at_tail
  maybe_escalate_tail_priority dag =
      if ltb dag.total_work_units 2
      then done
      else query (get_dag dag.id) >>= escalate_at_tail dag.total_work_units
