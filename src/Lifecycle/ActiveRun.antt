-- ===== src/Lifecycle/ActiveRun.antt =====
-- The parts of `_handle_active`, each as a run of the request's state machine.
use condora.Base.{
  ℕ, String, Bool, true, List, map, Option, none, some, ◌≡◌, sym, ap, ◌==◌, string_eq,
}
use mathlib.Core.Path.{subst}
use condora.Config.{Settings}
use condora.Rows.{RequestRow, WorkflowRow, DagRow}
use condora.Repository.{update_request}
use condora.ErrorHandler.{Action, rescue, hold, CompletionResult}
use condora.Effects.{State, done, update}
use condora.Effects.Maintains.{Maintains, if-Maintains}
use condora.Lifecycle.Resubmit.{consume_step}
use condora.Lifecycle.Admission.{Planner}
use condora.Lifecycle.Evaluate.{FailureFiles, complete_dag, move_failed, handle_single_dag_failure}
use condora.Lifecycle.View.{View, Keeps, view_of}
use condora.Lifecycle.Edges.{IsQuietPlanner}
use condora.Lifecycle.ResubmitMoves.{views-update_request}
use condora.Lifecycle.Failure.{requests-handle_dag_completion}
use condora.Lifecycle.Active.{
  ActiveWork, RoundSettings, expect, cleanup_cluster, cleanup_condor_dag, aggregate_workflow_counts,
  maybe_advance_round, plan_workflow, plan_next, escalate, escalate_at_tail,
  maybe_escalate_tail_priority,
}
use condora.Lifecycle.Active.Round.{
  demote, close_round, latest_workflow, discard_output, settle_round, handle_dag_round_completion,
}
use condora.Lifecycle.ActiveMoves.{HasRun, run_rules, Keeps-Maintains}

-- The operations that are not modelled, and the planner, make no transition.
pub record AreQuietRounds (work : ActiveWork) : Type 0 where
  pub planner-IsQuiet : IsQuietPlanner work.planner
  pub rounds-Keep : (w : WorkflowRow) (d : DagRow) → Keeps (work.complete_round w d)
  pub outputs-Keep : (w : WorkflowRow) (d : DagRow) → Keeps (work.cleanup_pilot_output w d)
  pub metrics-Keep : (w : WorkflowRow) (d : DagRow) → Keeps (work.update_round_wu_metrics w d)
  pub exclusions-Keep : (d : DagRow) (w : WorkflowRow) → Keeps (work.check_site_exclusions d w)

module _ (work : ActiveWork) (quiet : AreQuietRounds work) (settings : Settings)
    (rounds : RoundSettings) (now : ℕ) (name : String) (before : List View) where
  abbrev P : State → Type 0
  P = HasRun now name before

  pub expect-Maintains : {A : Type 0} (o : Option A) → Maintains P (expect o)
  expect-Maintains none = λ s ok. ok
  expect-Maintains (some a) = λ s ok. ok

  cleanup_cluster-Maintains :
      (d : DagRow) (cluster_id : Option ℕ)
      → Maintains P (cleanup_cluster work settings rounds d cluster_id)
  unfolding cleanup_cluster
  cleanup_cluster-Maintains d none = search run_rules
  cleanup_cluster-Maintains d (some cluster_id) = search run_rules

  pub cleanup_condor_dag-Maintains :
      (d : DagRow) → Maintains P (cleanup_condor_dag work settings rounds d)
  unfolding cleanup_condor_dag
  cleanup_condor_dag-Maintains d = cleanup_cluster-Maintains d d.dagman_cluster_id

  pub aggregate_workflow_counts-Maintains :
      (w : WorkflowRow) → Maintains P (aggregate_workflow_counts work settings rounds w)
  unfolding aggregate_workflow_counts
  aggregate_workflow_counts-Maintains w = search run_rules

  plan_workflow-Maintains :
      (planner : Planner) (w : Option WorkflowRow)
      → IsQuietPlanner (some planner)
      → Maintains P (plan_workflow work settings rounds planner w)
  unfolding plan_workflow
  plan_workflow-Maintains planner none plans = search run_rules
  plan_workflow-Maintains planner (some w) plans =
      let plan : Maintains P (planner.plan_production_dag w true) =
        Keeps-Maintains now name before {A = Option DagRow} (planner.plan_production_dag w true)
          (plans.plan-Keeps w true) in
      search (run_rules, plan)

  pub plan_next-Maintains :
      (planner : Option Planner) (request_name : String)
      → IsQuietPlanner planner
      → Maintains P (plan_next work settings rounds planner request_name)
  unfolding plan_next
  plan_next-Maintains none request_name plans = search run_rules
  plan_next-Maintains (some planner) request_name plans =
      search (run_rules, plan_workflow-Maintains)

  pub maybe_advance_round-Maintains :
      (request_name : String) (w : WorkflowRow)
      → Maintains P (maybe_advance_round work settings rounds request_name w)
  unfolding maybe_advance_round
  maybe_advance_round-Maintains request_name w =
      search (run_rules, plan_next-Maintains, quiet.planner-IsQuiet)

  escalate-Maintains :
      (d : DagRow) (cluster_id : Option ℕ)
      → Maintains P (escalate work settings rounds d cluster_id)
  unfolding escalate
  escalate-Maintains d none = search run_rules
  escalate-Maintains d (some cluster_id) = search run_rules

  escalate_at_tail-Maintains :
      (total_wus : ℕ) (d : Option DagRow)
      → Maintains P (escalate_at_tail work settings rounds total_wus d)
  unfolding escalate_at_tail
  escalate_at_tail-Maintains total_wus none = search run_rules
  escalate_at_tail-Maintains total_wus (some d) = search (run_rules, escalate-Maintains)

  pub maybe_escalate_tail_priority-Maintains :
      (d : DagRow) → Maintains P (maybe_escalate_tail_priority work settings rounds d)
  unfolding maybe_escalate_tail_priority
  maybe_escalate_tail_priority-Maintains d = search (run_rules, escalate_at_tail-Maintains)

  demote-Maintains : (r : RequestRow) (w : WorkflowRow) → Maintains P (demote work settings now r w)
  unfolding demote update_request
  demote-Maintains r w =
      let step : Maintains P (update (update_request now r.request_name consume_step)) =
        Keeps-Maintains now name before {A = Unit {0}}
          (update (update_request now r.request_name consume_step))
          (λ s. views-update_request now (λ r'. r'.request_name == r.request_name) s.db.requests) in
      search (run_rules, step)

  close_round-Maintains :
      (w : WorkflowRow) (dags : List DagRow)
      → Maintains P (close_round work settings now name w dags)
  unfolding close_round
  close_round-Maintains w dags = search run_rules

  move_failed-Maintains : (action : Action) → Maintains P (move_failed settings now name action)
  unfolding move_failed
  move_failed-Maintains rescue = search run_rules
  move_failed-Maintains hold = search run_rules

  complete_dag-Maintains :
      (files : FailureFiles) (d : DagRow) (r : RequestRow) (w : WorkflowRow)
      → Maintains P (complete_dag settings now files work.has_site_manager d r w)
  unfolding complete_dag
  complete_dag-Maintains files d r w =
      Keeps-Maintains now name before {A = CompletionResult}
        (complete_dag settings now files work.has_site_manager d r w)
        (λ s.
          ap (map view_of)
            (requests-handle_dag_completion settings now files work.has_site_manager r w d s.db))

  pub handle_single_dag_failure-Maintains :
      (files : Option FailureFiles) (r : RequestRow) (own : r.request_name ≡ name) (w : WorkflowRow)
      (d : DagRow)
      → Maintains P (handle_single_dag_failure settings now files work.has_site_manager r w d)
  unfolding handle_single_dag_failure
  handle_single_dag_failure-Maintains none r own w d = move_own
    where
      move_own : Maintains P (move_failed settings now r.request_name hold)
      move_own =
          subst (λ n. Maintains P (move_failed settings now n hold)) (sym own)
            (move_failed-Maintains hold)
  handle_single_dag_failure-Maintains (some files) r own w d =
      let move : (a : Action) → Maintains P (move_failed settings now r.request_name a) = λ a.
        subst (λ n. Maintains P (move_failed settings now n a)) (sym own)
          (move_failed-Maintains a) in
      search (run_rules, complete_dag-Maintains, move)

  latest_workflow-Maintains :
      (request_name : String) → Maintains P (latest_workflow work settings now request_name)
  unfolding latest_workflow
  latest_workflow-Maintains request_name = search (run_rules, expect-Maintains)

  discard_output-Maintains :
      (w : WorkflowRow) (d : DagRow) (throwaway : Bool)
      → Maintains P (discard_output work settings now w d throwaway)
  unfolding discard_output
  discard_output-Maintains w d throwaway =
      if-Maintains P throwaway (work.cleanup_pilot_output w d) done
        (Keeps-Maintains now name before {A = Unit {0}} (work.cleanup_pilot_output w d)
          (quiet.outputs-Keep w d))
        (λ s ok. ok)

  complete_round-Maintains : (w : WorkflowRow) (d : DagRow) → Maintains P (work.complete_round w d)
  complete_round-Maintains w d =
      Keeps-Maintains now name before {A = Bool} (work.complete_round w d) (quiet.rounds-Keep w d)

  settle_round-Maintains :
      (r : RequestRow) (own : r.request_name ≡ name) (w : WorkflowRow)
      → Maintains P (settle_round work settings now r w)
  unfolding settle_round
  settle_round-Maintains r own w = search (run_rules, demote-Maintains, close_own)
    where
      close_own :
          (dags : List DagRow) → Maintains P (close_round work settings now r.request_name w dags)
      close_own dags =
          subst (λ n. Maintains P (close_round work settings now n w dags)) (sym own)
            (close_round-Maintains w dags)

  pub handle_dag_round_completion-Maintains :
      (r : RequestRow) (own : r.request_name ≡ name) (d : DagRow)
      → Maintains P (handle_dag_round_completion work settings now r d)
  unfolding handle_dag_round_completion
  handle_dag_round_completion-Maintains r own d =
      let settle : (w : WorkflowRow) → Maintains P (settle_round work settings now r w) =
        settle_round-Maintains r own in
      search (
        run_rules, latest_workflow-Maintains, complete_round-Maintains, discard_output-Maintains,
        settle,
      )
