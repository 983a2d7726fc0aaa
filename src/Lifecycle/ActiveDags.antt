-- ===== src/Lifecycle/ActiveDags.antt =====
-- The poll of one DAG of an active request, as a run of the request's state machine.
use condora.Base.{ℕ, String, List, Option, none, some, ◌≡◌, string_eq}
use condora.Enums.{DagStatus}
use condora.Rows.{RequestRow, WorkflowRow, DagRow}
use condora.Config.{Settings}
use condora.Effects.{State}
use condora.Effects.Maintains.{Maintains}
use condora.Monitor.Poll.{Monitor, DagPollResult, poll_dag}
use condora.Lifecycle.View.{View}
use condora.Lifecycle.Active.{ActiveWork, RoundSettings}
use condora.Lifecycle.Active.Round.{refetch, handle_dag_round_completion}
use condora.Lifecycle.Active.Units.{process_completed_wus}
use condora.Lifecycle.Active.Cycle.{
  finish_dag, fail_one, tend_dag, tend_again, after_dag, follow_dag,
}
use condora.Lifecycle.ActiveMoves.{HasRun, run_rules, poll_dag-Maintains, Keeps-Maintains}
use condora.Lifecycle.ActiveUnits.{process_completed_wus-Maintains}
use condora.Lifecycle.ActiveRun.{
  AreQuietRounds, expect-Maintains, cleanup_condor_dag-Maintains,
  maybe_escalate_tail_priority-Maintains, handle_single_dag_failure-Maintains,
  handle_dag_round_completion-Maintains,
}

module _ (work : ActiveWork) (quiet : AreQuietRounds work) (settings : Settings)
    (rounds : RoundSettings) (now : ℕ) (name : String) (before : List View) where
  abbrev P : State → Type 0
  P = HasRun now name before

  module _ (r : RequestRow) (own : r.request_name ≡ name) where
    finish_dag-Maintains : (d : DagRow) → Maintains P (finish_dag work settings rounds now r d)
    unfolding finish_dag
    finish_dag-Maintains d =
        let ended : (d' : DagRow)
            → Maintains P (handle_dag_round_completion work settings now r d') =
          handle_dag_round_completion-Maintains work quiet settings rounds now name before r own in
        search (run_rules, expect-Maintains, cleanup_condor_dag-Maintains, ended)

    pub fail_one-Maintains :
        (w : WorkflowRow) (d : DagRow) → Maintains P (fail_one work settings rounds now r w d)
    unfolding fail_one
    fail_one-Maintains w d =
        handle_single_dag_failure-Maintains work quiet settings rounds now name before
          work.error_handler r own w d

  pub refetch-Maintains : (request_name : String) → Maintains P (refetch request_name)
  unfolding refetch
  refetch-Maintains request_name = λ s ok. ok

  tend_dag-Maintains :
      (w : WorkflowRow) (d : Option DagRow) → Maintains P (tend_dag work settings rounds now w d)
  unfolding tend_dag
  tend_dag-Maintains w none = search run_rules
  tend_dag-Maintains w (some d) =
      let exclude : Maintains P (work.check_site_exclusions d w) =
        Keeps-Maintains now name before {A = Unit {0}} (work.check_site_exclusions d w)
          (quiet.exclusions-Keep d w) in
      search (run_rules, exclude, maybe_escalate_tail_priority-Maintains)

  tend_again-Maintains :
      (r : RequestRow) (w : WorkflowRow) (d : DagRow)
      → Maintains P (tend_again work settings rounds now r w d)
  unfolding tend_again
  tend_again-Maintains r w d = search (run_rules, tend_dag-Maintains)

  module _ (r : RequestRow) (own : r.request_name ≡ name) where
    after_dag-Maintains :
        (w : WorkflowRow) (d : DagRow) (status : DagStatus)
        → Maintains P (after_dag work settings rounds now r w d status)
    unfolding after_dag
    after_dag-Maintains w d DagStatus.completed =
        let finish : Maintains P (finish_dag work settings rounds now r d) =
          finish_dag-Maintains r own d in
        search (run_rules, finish, refetch-Maintains)
    after_dag-Maintains w d DagStatus.partial =
        let fail : Maintains P (fail_one work settings rounds now r w d) =
          fail_one-Maintains r own w d in
        search (run_rules, fail, refetch-Maintains)
    after_dag-Maintains w d DagStatus.failed =
        let fail : Maintains P (fail_one work settings rounds now r w d) =
          fail_one-Maintains r own w d in
        search (run_rules, fail, refetch-Maintains)
    after_dag-Maintains w d DagStatus.planning = tend_again-Maintains r w d
    after_dag-Maintains w d DagStatus.ready = tend_again-Maintains r w d
    after_dag-Maintains w d DagStatus.submitted = tend_again-Maintains r w d
    after_dag-Maintains w d DagStatus.running = tend_again-Maintains r w d
    after_dag-Maintains w d DagStatus.removed = tend_again-Maintains r w d
    after_dag-Maintains w d DagStatus.halted = tend_again-Maintains r w d
    after_dag-Maintains w d DagStatus.stopped = tend_again-Maintains r w d

    pub follow_dag-Maintains :
        (monitor : Monitor) (w : WorkflowRow) (d : DagRow)
        → Maintains P (follow_dag work settings rounds now monitor r w d)
    unfolding follow_dag
    follow_dag-Maintains monitor w d =
        let poll : Maintains P (poll_dag monitor d) =
          poll_dag-Maintains now name before monitor d in
        let units : (result : DagPollResult)
            → Maintains P (process_completed_wus work now r w result) =
          process_completed_wus-Maintains work quiet settings rounds now name before r own w in
        search (run_rules, poll, units, after_dag-Maintains)
