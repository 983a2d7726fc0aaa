-- ===== src/Lifecycle/Active/Units.antt =====
-- `_process_completed_wus`: finished work units go to the output manager, and their events count.
use condora.Base.{
  ℕ, String, Bool, true, false, List, [], ◌∷◌, Option, none, some, ◌+◌, ◌&&◌, ◌==◌, ltb, is_empty,
  sum_of, string_eq, nat_eq, if◌then◌else◌,
}
use condora.Base.Dict.{lookup, values}
use condora.Enums.{RequestStatus}
use condora.Rows.{RequestRow, WorkflowRow, DagRow, BlockRow}
use condora.Repository.{get_workflow_by_request, get_dag, update_workflow, get_processing_blocks}
use condora.Effects.{
  Exception, condor_error, value_error, service_error, registration_error, M, ◌>>=◌, ◌>>◌, pure,
  query, done, update, catching, for_each,
}
use condora.Monitor.{CompletedUnit}
use condora.Monitor.Poll.{DagPollResult}
use condora.Output.Rucio.{OutputManager, Stageout}
use condora.Output.Blocks.{MergeInfo, handle_work_unit_completion}
use condora.Output.Cycle.{process_blocks_for_workflow}
use condora.Lifecycle.Transitions.{transition}
use condora.Lifecycle.Active.{ActiveWork}

-- `latest_by_ds`: a dataset keeps its place, and takes a block that was created later.
unfoldable pub put_latest : BlockRow → List (String × BlockRow) → List (String × BlockRow)
put_latest b [] = (b.dataset_name, b) ∷ []
put_latest b ((dataset, prev) ∷ latest) =
    let rest = put_latest b latest in
    if dataset == b.dataset_name
    then (dataset, if ltb prev.created_at b.created_at then b else prev) ∷ latest
    else (dataset, prev) ∷ rest

unfoldable pub latest_by_dataset :
    List (String × BlockRow) → List BlockRow → List (String × BlockRow)
unfolding put_latest
latest_by_dataset latest [] = latest
latest_by_dataset latest (b ∷ blocks) = latest_by_dataset (put_latest b latest) blocks

unfoldable pub merge_info : CompletedUnit → BlockRow → MergeInfo
unfolding lookup
merge_info wu block = record {
  output_files = elim wu.manifest [
    | none ↦ []
    | some manifest ↦ elim (lookup block.dataset_name manifest.datasets) [
      | none ↦ []
      | some files ↦ files
    ]
  ];
  site = elim wu.manifest [ none ↦ "local" | some manifest ↦ manifest.site ];
  node_name = wu.group_name;
}

unfoldable pub register_unit_in :
    OutputManager → Stageout → List BlockRow → CompletedUnit → M (Unit {0})
unfolding for_each handle_work_unit_completion merge_info
register_unit_in o config blocks wu =
    for_each blocks (λ block. handle_work_unit_completion o config block.id (merge_info wu block))

unfoldable pub register_units : OutputManager → Stageout → ℕ → List CompletedUnit → M (Unit {0})
unfolding get_processing_blocks latest_by_dataset for_each register_unit_in
register_units o config workflow_id units = do
  all_blocks ← query (get_processing_blocks workflow_id)
  for_each units (register_unit_in o config (values (latest_by_dataset [] all_blocks)))

module _ (work : ActiveWork) (now : ℕ) where
  -- `except RucioRegistrationError`: the request is held; another error is logged. Whether it is
  -- held.
  unfoldable pub hold_on_error : String → Exception → M Bool
  unfolding transition
  hold_on_error request_name (registration_error text) =
      transition now request_name RequestStatus.held >> pure true
  hold_on_error request_name (service_error text) = pure false
  hold_on_error request_name condor_error = pure false
  hold_on_error request_name value_error = pure false

  unfoldable pub register_outputs :
      Option OutputManager → RequestRow → WorkflowRow → List CompletedUnit → M Bool
  unfolding register_units hold_on_error
  register_outputs none r w units = pure false
  register_outputs (some o) r w units =
      catching (register_units o (work.stageout w) w.id units >> pure false)
        (hold_on_error r.request_name)

  -- "Every cycle: retry failed Rucio calls"
  unfoldable pub retry_outputs : Option OutputManager → RequestRow → WorkflowRow → M Bool
  unfolding process_blocks_for_workflow hold_on_error
  retry_outputs none r w = pure false
  retry_outputs (some o) r w =
      catching (process_blocks_for_workflow o (work.stageout w) w.id >> pure false)
        (hold_on_error r.request_name)

  -- A throwaway pilot's events do not count.
  abbrev pub is_pilot_throwaway : Option WorkflowRow → Option DagRow → Bool
  is_pilot_throwaway (some w) (some d) = d.round_number == 0 && work.pilot_throwaway w
  is_pilot_throwaway _ _ = false

  unfoldable pub count_events :
      Option WorkflowRow → Option DagRow → List CompletedUnit → M (Unit {0})
  unfolding update_workflow
  count_events none dag units = done
  count_events (some w) dag units =
      let total_new_events = sum_of (λ wu. wu.output_events) units in
      if is_pilot_throwaway (some w) dag
      then done
      else if ltb 0 total_new_events
      then update (
          update_workflow w.id
            (λ w'. record w' { events_produced = w.events_produced + total_new_events }))
      else done

  unfoldable pub record_metrics : Option WorkflowRow → Option DagRow → M (Unit {0})
  record_metrics (some w) (some d) = work.update_round_wu_metrics w d
  record_metrics _ _ = done

  unfoldable pub count_units : String → DagPollResult → M (Unit {0})
  unfolding get_workflow_by_request get_dag count_events record_metrics
  count_units request_name result = do
    wf ← query (get_workflow_by_request request_name)
    dag ← query (get_dag result.dag_id)
    count_events wf dag result.newly_completed_work_units
    record_metrics wf dag

  unfoldable pub process_completed_wus : RequestRow → WorkflowRow → DagPollResult → M (Unit {0})
  unfolding register_outputs count_units
  process_completed_wus r w result =
      if is_empty result.newly_completed_work_units then done else (do
        held ← register_outputs work.output_manager r w result.newly_completed_work_units
        if held then done else count_units r.request_name result)
