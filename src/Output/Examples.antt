-- ===== src/Output/Examples.antt =====
-- The theorems on output blocks, at small inputs.
use mathlib.Core.List.{flatten}
use condora.Base.{
  true, false, [], ◌∷◌, map, none, some, ◌≡◌, refl, ◌≤◌, ◌==◌, string_eq, All, if◌then◌else◌,
}
use condora.Services.{DataServices, replied, failed, create_rule, delete_rule, invalidate_block}
use condora.Enums.{BlockStatus, RequestStatus, DagStatus}
use condora.Rows.{BlockRow}
use condora.Repository.{get_processing_block, get_processing_blocks}
use condora.Effects.{State, return, raise, registration_error}
use condora.Samples.{sample_state}
use condora.Output.{backoff}
use condora.Output.Retry.{backoff-grows}
use condora.Output.Rucio.{OutputManager, Stageout}
use condora.Output.Blocks.{MergeInfo, handle_work_unit_completion}
use condora.Output.Cycle.{cleanup_calls, invalidate_blocks, retry_tape_archival}
use condora.Output.Soundness.{
  IsSound, is_sound, unit_completed, cycle_passed, invalidated, apply_all, apply_all-IsSound,
}
use condora.Output.Progress.{IsRecorded, handle_work_unit_completion-IsRecorded}
use condora.Output.Invalidation.{take_back, is_invalidated, invalidate_blocks-invalidates}
use condora.Output.Archival.{IsTapeOutcome, retry_tape_archival-IsTapeOutcome}

abbrev block : BlockRow
block = record {
  id = 1;
  workflow_id = 7;
  dataset_name = "/Gen/Run3/AODSIM";
  block_index = 0;
  total_work_units = 10;
  completed_work_units = [];
  dbs_block_name = none;
  dbs_block_open = true;
  dbs_block_closed = false;
  source_rule_ids = [];
  tape_rule_id = none;
  consolidation_rule_id = none;
  output_files = [];
  site = none;
  last_rucio_attempt = none;
  rucio_attempt_count = 0;
  rucio_last_error = none;
  status = BlockStatus.open_block;
  created_at = 1000;
}

backoff-grows_example : (backoff 2 ≤ backoff 3) × (backoff 2 ≤ 28800)
backoff-grows_example = backoff-grows 2

-- A production block with its last work unit, and a Rucio that has no room on tape.
abbrev nearly_done : BlockRow
nearly_done = record block { total_work_units = 1; dbs_block_open = false }

abbrev full_tape : DataServices
full_tape calls (create_rule dataset destination scope) =
    if destination == "tier=1&type=TAPE" then failed "no quota" else replied "rule_1"
full_tape calls call = replied "rule_1"

abbrev manager : OutputManager
manager = record { services = full_tape; site_manager = none; now = 2000 }

abbrev production : Stageout
production = record {
  stageout_mode = "production";
  rucio_test_account = "";
  consolidation_rse = "";
}

abbrev unit_info : MergeInfo
unit_info = record { output_files = []; site = "T2_A"; node_name = "mg_1" }

abbrev block_state : BlockRow → State
block_state b =
    let s = sample_state RequestStatus.active DagStatus.running in
    record s { db = record s.db { blocks = b ∷ [] } }

handle_work_unit_completion_raises :
    (handle_work_unit_completion manager production 1 unit_info (block_state nearly_done)).0
    ≡ raise (registration_error "no quota")
unfolding handle_work_unit_completion
handle_work_unit_completion_raises = refl

handle_work_unit_completion-IsRecorded_example :
    IsRecorded unit_info nearly_done
      (handle_work_unit_completion manager production 1 unit_info (block_state nearly_done))
      (block_state nearly_done)
unfolding get_processing_block
handle_work_unit_completion-IsRecorded_example =
    handle_work_unit_completion-IsRecorded manager production 1 unit_info nearly_done
      (block_state nearly_done) refl

apply_all-IsSound_example :
    IsSound
      (apply_all
        ((manager, (production, unit_completed 1 unit_info))
          ∷ (record manager { now = 3000 }, (production, cycle_passed 7))
          ∷ (manager, (production, invalidated 7))
          ∷ [])
        (block_state nearly_done)).1
unfolding is_sound
apply_all-IsSound_example =
    apply_all-IsSound
      ((manager, (production, unit_completed 1 unit_info))
        ∷ (record manager { now = 3000 }, (production, cycle_passed 7))
        ∷ (manager, (production, invalidated 7))
        ∷ [])
      (block_state nearly_done) (refl, tt)

abbrev placed : BlockRow
placed = record block {
  source_rule_ids = ("mg_1", "rule_1") ∷ [];
  tape_rule_id = some "rule_2";
  dbs_block_name = some "block";
}

invalidate_blocks-invalidates_example :
    let after = invalidate_blocks full_tape 7 (block_state placed) in
    (after.0 ≡ return tt)
    × ((after.1.data_calls
          ≡ flatten (map take_back (get_processing_blocks 7 (block_state placed).db)))
        × All (λ b. is_invalidated b.status ≡ true) (get_processing_blocks 7 after.1.db))
invalidate_blocks-invalidates_example =
    invalidate_blocks-invalidates full_tape 7 (block_state placed)

cleanup_calls_run :
    cleanup_calls placed
    ≡ delete_rule "rule_1" ∷ delete_rule "rule_2" ∷ invalidate_block "block" ∷ []
unfolding cleanup_calls
cleanup_calls_run = refl

retry_tape_archival-IsTapeOutcome_example :
    IsTapeOutcome manager block
      (block_state block)
      (retry_tape_archival manager production block (block_state block))
retry_tape_archival-IsTapeOutcome_example =
    retry_tape_archival-IsTapeOutcome manager production block (block_state block)
