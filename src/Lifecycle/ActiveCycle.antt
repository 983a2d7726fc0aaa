-- ===== src/Lifecycle/ActiveCycle.antt =====
-- `_handle_active` as a run of the state machine of its request.
use mathlib.Core.Path.{subst}
use condora.Base.{ℕ, String, List, [], ◌∷◌, Option, none, some, ◌≡◌, refl, sym, string_eq}
use condora.Enums.{DagStatus}
use condora.Rows.{RequestRow, WorkflowRow, DagRow}
use condora.Config.{Settings}
use condora.Repository.{get_workflow_by_request, get_active_dags_for_workflow}
use condora.Effects.{State, ◌>>=◌}
use condora.Effects.Maintains.{Maintains, Returns, bind-Maintains_where}
use condora.Monitor.Poll.{Monitor}
use condora.Lifecycle.Stop.{head_dag}
use condora.Lifecycle.View.{View, views}
use condora.Lifecycle.Active.{ActiveWork, RoundSettings, aggregate_workflow_counts}
use condora.Lifecycle.Active.Round.{refetch, handle_dag_round_completion}
use condora.Lifecycle.Active.Units.{retry_outputs}
use condora.Lifecycle.Active.Cycle.{
  Next, fail_one, finish_head, follow_dag, follow_dags, close_head, check_head, drop_dag, advance,
  advance_next, count_and_advance, after_polls, follow_workflow, handle_workflow, handle_active,
}
use condora.Lifecycle.ActiveMoves.{Run, start, HasRun, run_rules}
use condora.Lifecycle.ActiveUnits.{retry_outputs-Maintains}
use condora.Lifecycle.ActiveRun.{
  AreQuietRounds, cleanup_condor_dag-Maintains, aggregate_workflow_counts-Maintains,
  plan_next-Maintains, maybe_advance_round-Maintains, handle_dag_round_completion-Maintains,
}
use condora.Lifecycle.ActiveOwn.{
  IsOwn, refetch-Returns, check_head-Returns, follow_dag-Returns, follow_dags-Returns,
}
use condora.Lifecycle.ActiveDags.{fail_one-Maintains, refetch-Maintains, follow_dag-Maintains}

module _ (work : ActiveWork) (quiet : AreQuietRounds work) (settings : Settings)
    (rounds : RoundSettings) (now : ℕ) (name : String) (before : List View) where
  abbrev P : State → Type 0
  P = HasRun now name before

  drop_dag-Maintains : (d : DagRow) → Maintains P (drop_dag work settings rounds now d)
  unfolding drop_dag
  drop_dag-Maintains d = search (run_rules, cleanup_condor_dag-Maintains)

  advance-Maintains :
      (w : WorkflowRow) (dags : List DagRow)
      → Maintains P (advance work settings rounds now name w dags)
  unfolding advance
  advance-Maintains w dags = search (
    run_rules, drop_dag-Maintains, plan_next-Maintains, quiet.planner-IsQuiet,
    maybe_advance_round-Maintains,
  )

  module _ (r : RequestRow) (own : r.request_name ≡ name) where
    finish_head-Maintains :
        (w : WorkflowRow) (d : DagRow) → Maintains P (finish_head work settings rounds now r w d)
    unfolding finish_head
    finish_head-Maintains w d =
        let ended : (d' : DagRow)
            → Maintains P (handle_dag_round_completion work settings now r d') =
          handle_dag_round_completion-Maintains work quiet settings rounds now name before r own in
        search (run_rules, cleanup_condor_dag-Maintains, ended)

    close_head-Maintains :
        (w : WorkflowRow) (d : DagRow) (status : DagStatus)
        → Maintains P (close_head work settings rounds now r w d status)
    unfolding close_head
    close_head-Maintains w d DagStatus.completed = search (run_rules, finish_head-Maintains)
    close_head-Maintains w d DagStatus.partial =
        let fail : Maintains P (fail_one work settings rounds now r w d) =
          fail_one-Maintains work quiet settings rounds now name before r own w d in
        search (run_rules, fail)
    close_head-Maintains w d DagStatus.failed =
        let fail : Maintains P (fail_one work settings rounds now r w d) =
          fail_one-Maintains work quiet settings rounds now name before r own w d in
        search (run_rules, fail)
    close_head-Maintains w d DagStatus.planning = search run_rules
    close_head-Maintains w d DagStatus.ready = search run_rules
    close_head-Maintains w d DagStatus.submitted = search run_rules
    close_head-Maintains w d DagStatus.running = search run_rules
    close_head-Maintains w d DagStatus.removed = search run_rules
    close_head-Maintains w d DagStatus.halted = search run_rules
    close_head-Maintains w d DagStatus.stopped = search run_rules

    check_head-Maintains :
        (w : WorkflowRow) (dags : List DagRow) (head : Option DagRow)
        → Maintains P (check_head work settings rounds now r w dags head)
    unfolding check_head
    check_head-Maintains w [] (some d) = close_head-Maintains w d d.status
    check_head-Maintains w [] none = search run_rules
    check_head-Maintains w (d ∷ dags) head = search run_rules

    retry_own-Maintains :
        (w : WorkflowRow) → Maintains P (retry_outputs work now work.output_manager r w)
    retry_own-Maintains =
        retry_outputs-Maintains work quiet settings rounds now name before r own work.output_manager

  follow_dags-Maintains :
      (monitor : Monitor) (dags : List DagRow) (next : Next)
      → IsOwn name next
      → Maintains P (follow_dags work settings rounds now monitor dags next)
  unfolding follow_dags
  follow_dags-Maintains monitor [] next own = search run_rules
  follow_dags-Maintains monitor (d ∷ dags) none own = search run_rules
  follow_dags-Maintains monitor (d ∷ dags) (some (r, w)) own =
      bind-Maintains_where P (IsOwn name) (follow_dag work settings rounds now monitor r w d)
        (follow_dags work settings rounds now monitor dags)
        (follow_dag-Maintains work quiet settings rounds now name before r own monitor w d)
        (follow_dag-Returns name work settings rounds now monitor r own w d)
        (follow_dags-Maintains monitor dags)

  advance_next-Maintains :
      (next : Next) → IsOwn name next → Maintains P (advance_next work settings rounds now next)
  unfolding advance_next
  advance_next-Maintains none own = search run_rules
  advance_next-Maintains (some (r, w)) own = search (run_rules, advance_own)
    where
      advance_own :
          (dags : List DagRow)
          → Maintains P (advance work settings rounds now r.request_name w dags)
      advance_own dags =
          subst (λ n. Maintains P (advance work settings rounds now n w dags)) (sym own)
            (advance-Maintains w dags)

  count_and_advance-Maintains :
      (r : RequestRow) (own : r.request_name ≡ name) (w : WorkflowRow)
      → Maintains P (count_and_advance work settings rounds now r w)
  unfolding count_and_advance
  count_and_advance-Maintains r own w = search (run_rules, counts, next)
    where
      counts : Maintains P (aggregate_workflow_counts work settings rounds w)
      counts = aggregate_workflow_counts-Maintains work quiet settings rounds now name before w

      returns : Returns (IsOwn name) (refetch r.request_name)
      returns = subst (λ n. Returns (IsOwn name) (refetch n)) (sym own) (refetch-Returns name)

      next : Maintains P (refetch r.request_name >>= advance_next work settings rounds now)
      next =
          bind-Maintains_where P (IsOwn name) (refetch r.request_name)
            (advance_next work settings rounds now)
            (refetch-Maintains work quiet settings rounds now name before r.request_name) returns
            advance_next-Maintains

  after_polls-Maintains :
      (next : Next) → IsOwn name next → Maintains P (after_polls work settings rounds now next)
  unfolding after_polls
  after_polls-Maintains none own = search run_rules
  after_polls-Maintains (some (r, w)) own =
      let retry : Maintains P (retry_outputs work now work.output_manager r w) =
        retry_own-Maintains r own w in
      let count : Maintains P (count_and_advance work settings rounds now r w) =
        count_and_advance-Maintains r own w in
      search (run_rules, retry, count)

  polled-Maintains :
      (monitor : Monitor) (dags : List DagRow) (next : Next)
      → IsOwn name next
      → Maintains P (
          follow_dags work settings rounds now monitor dags next
          >>= after_polls work settings rounds now)
  polled-Maintains monitor dags next own =
      bind-Maintains_where P (IsOwn name) (follow_dags work settings rounds now monitor dags next)
        (after_polls work settings rounds now) (follow_dags-Maintains monitor dags next own)
        (follow_dags-Returns name work settings rounds now monitor dags next own)
        after_polls-Maintains

  checked-Maintains :
      (monitor : Monitor) (r : RequestRow) (own : r.request_name ≡ name) (w : WorkflowRow)
      (dags : List DagRow) (head : Option DagRow)
      → Maintains P (
          check_head work settings rounds now r w dags head >>= λ start.
          follow_dags work settings rounds now monitor dags start
          >>= after_polls work settings rounds now)
  checked-Maintains monitor r own w dags head =
      bind-Maintains_where P (IsOwn name) (check_head work settings rounds now r w dags head)
        (λ start.
          follow_dags work settings rounds now monitor dags start
          >>= after_polls work settings rounds now)
        (check_head-Maintains r own w dags head)
        (check_head-Returns name work settings rounds now r own w dags head)
        (polled-Maintains monitor dags)

  handle_workflow-Maintains :
      (monitor : Monitor) (r : RequestRow) (own : r.request_name ≡ name) (w : Option WorkflowRow)
      → Maintains P (handle_workflow work settings rounds now monitor r w)
  unfolding handle_workflow follow_workflow
  handle_workflow-Maintains monitor r own none s = λ ok. ok
  handle_workflow-Maintains monitor r own (some w) s =
      checked-Maintains monitor r own w (get_active_dags_for_workflow w.id s.db) (head_dag w s.db) s

  handle_active-Maintains :
      (monitor : Option Monitor) (r : RequestRow) (own : r.request_name ≡ name)
      → Maintains P (handle_active work settings rounds now monitor r)
  unfolding handle_active
  handle_active-Maintains none r own s = λ ok. ok
  handle_active-Maintains (some monitor) r own s =
      handle_workflow-Maintains monitor r own (get_workflow_by_request r.request_name s.db) s

-- A cycle of an active request changes the states of requests by transitions of that request alone,
-- each to COMPLETED, QUEUED, HELD or RESUBMITTING and each recorded in its history, whatever the pool,
-- DBS and Rucio answer and also where it raises; every other request keeps its status and its
-- transitions. The planner and the operations that are not modelled are to make no transition.
pub handle_active-IsRun :
    (work : ActiveWork)
    → AreQuietRounds work
    → (settings : Settings) (rounds : RoundSettings) (now : ℕ) (monitor : Option Monitor)
      (r : RequestRow) (s : State)
    → Run now r.request_name
        (views s)
        (views (handle_active work settings rounds now monitor r s).1)
handle_active-IsRun work quiet settings rounds now monitor r s =
    handle_active-Maintains work quiet settings rounds now r.request_name (views s) monitor r refl s
      start
