-- ===== src/Lifecycle/ActiveUnits.antt =====
-- The registration and the count of finished work units, as a run of the request's state machine.
use condora.Base.{ℕ, String, List, Option, none, some, ◌≡◌, sym, string_eq}
use mathlib.Core.Path.{subst}
use condora.Config.{Settings}
use condora.Rows.{RequestRow, WorkflowRow, DagRow, BlockRow}
use condora.Repository.{get_processing_block}
use condora.Effects.{Exception, condor_error, value_error, service_error, registration_error, State}
use condora.Effects.Maintains.{Maintains, for_each-Maintains}
use condora.Monitor.{CompletedUnit}
use condora.Monitor.Poll.{DagPollResult}
use condora.Output.Rucio.{OutputManager, Stageout}
use condora.Output.Blocks.{MergeInfo, handle_work_unit_completion, record_unit}
use condora.Output.Operations.{handle_unit-Maintains}
use condora.Output.Cycle.{process_blocks_for_workflow}
use condora.Output.Cycles.{process_blocks_for_workflow-Maintains}
use condora.Lifecycle.View.{View}
use condora.Lifecycle.Active.{ActiveWork, RoundSettings}
use condora.Lifecycle.Active.Units.{
  merge_info, register_unit_in, register_units, hold_on_error, register_outputs, retry_outputs,
  count_events, record_metrics, count_units, process_completed_wus,
}
use condora.Lifecycle.ActiveMoves.{HasRun, HasRun-rules, run_rules, Keeps-Maintains}
use condora.Lifecycle.ActiveRun.{AreQuietRounds}

module _ (work : ActiveWork) (quiet : AreQuietRounds work) (settings : Settings)
    (rounds : RoundSettings) (now : ℕ) (name : String) (before : List View) where
  abbrev P : State → Type 0
  P = HasRun now name before

  hold_on_error-Maintains : (e : Exception) → Maintains P (hold_on_error work now name e)
  unfolding hold_on_error
  hold_on_error-Maintains (registration_error text) = search run_rules
  hold_on_error-Maintains (service_error text) = search run_rules
  hold_on_error-Maintains condor_error = search run_rules
  hold_on_error-Maintains value_error = search run_rules

  module _ (o : OutputManager) (config : Stageout) where
    record_unit-Maintains :
        (info : MergeInfo) (block : BlockRow) → Maintains P (record_unit o info block)
    unfolding record_unit
    record_unit-Maintains info block = search run_rules

    complete_unit-Maintains :
        (block_id : ℕ) (info : MergeInfo)
        → Maintains P (handle_work_unit_completion o config block_id info)
    unfolding handle_work_unit_completion
    complete_unit-Maintains block_id info s =
        handle_unit-Maintains (HasRun-rules now name before) o config (record_unit-Maintains) info
          (get_processing_block block_id s.db) s

    register_unit_in-Maintains :
        (blocks : List BlockRow) (wu : CompletedUnit)
        → Maintains P (register_unit_in o config blocks wu)
    unfolding register_unit_in
    register_unit_in-Maintains blocks wu =
        for_each-Maintains P blocks _
          (λ block. complete_unit-Maintains block.id (merge_info wu block))

    register_units-Maintains :
        (workflow_id : ℕ) (units : List CompletedUnit)
        → Maintains P (register_units o config workflow_id units)
    unfolding register_units
    register_units-Maintains workflow_id units s =
        for_each-Maintains P units _ (register_unit_in-Maintains _) s

  module _ (r : RequestRow) (own : r.request_name ≡ name) where
    hold_own-Maintains : (e : Exception) → Maintains P (hold_on_error work now r.request_name e)
    hold_own-Maintains e =
        subst (λ n. Maintains P (hold_on_error work now n e)) (sym own) (hold_on_error-Maintains e)

    register_outputs-Maintains :
        (o : Option OutputManager) (w : WorkflowRow) (units : List CompletedUnit)
        → Maintains P (register_outputs work now o r w units)
    unfolding register_outputs
    register_outputs-Maintains none w units = search run_rules
    register_outputs-Maintains (some o) w units =
        search (run_rules, register_units-Maintains, hold_own-Maintains)

    pub retry_outputs-Maintains :
        (o : Option OutputManager) (w : WorkflowRow) → Maintains P (retry_outputs work now o r w)
    unfolding retry_outputs
    retry_outputs-Maintains none w = search run_rules
    retry_outputs-Maintains (some o) w =
        let cycle : Maintains P (process_blocks_for_workflow o (work.stageout w) w.id) =
          process_blocks_for_workflow-Maintains (HasRun-rules now name before) o (work.stageout w)
            w.id in
        search (run_rules, cycle, hold_own-Maintains)

  count_events-Maintains :
      (w : Option WorkflowRow) (d : Option DagRow) (units : List CompletedUnit)
      → Maintains P (count_events work now w d units)
  unfolding count_events
  count_events-Maintains none d units = search run_rules
  count_events-Maintains (some w) d units = search run_rules

  record_metrics-Maintains :
      (w : Option WorkflowRow) (d : Option DagRow) → Maintains P (record_metrics work now w d)
  unfolding record_metrics
  record_metrics-Maintains none d = search run_rules
  record_metrics-Maintains (some w) none = search run_rules
  record_metrics-Maintains (some w) (some d) =
      Keeps-Maintains now name before {A = Unit {0}} (work.update_round_wu_metrics w d)
        (quiet.metrics-Keep w d)

  count_units-Maintains :
      (request_name : String) (result : DagPollResult)
      → Maintains P (count_units work now request_name result)
  unfolding count_units
  count_units-Maintains request_name result =
      search (run_rules, count_events-Maintains, record_metrics-Maintains)

  pub process_completed_wus-Maintains :
      (r : RequestRow) (own : r.request_name ≡ name) (w : WorkflowRow) (result : DagPollResult)
      → Maintains P (process_completed_wus work now r w result)
  unfolding process_completed_wus
  process_completed_wus-Maintains r own w result =
      let outputs = register_outputs-Maintains r own in
      search (run_rules, outputs, count_units-Maintains)
