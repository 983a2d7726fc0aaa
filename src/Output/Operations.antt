-- ===== src/Output/Operations.antt =====
-- Whatever the calls and the updates keep, `_register_files_in_rucio` and
-- `handle_work_unit_completion` keep.
use condora.Base.{String, List, Option, none, some}
use condora.Base.Paths.{dataset_parts}
use condora.Services.{OutputFile, Replica}
use condora.Rows.{BlockRow}
use condora.Effects.{State}
use condora.Effects.Maintains.{Maintains}
use condora.Output.Rucio.{
  OutputManager, Stageout, declare, publish, register_at, register_parts, register_files_in_rucio,
  Target, refused, skipped, at, at_target, remember,
}
use condora.Output.Blocks.{
  MergeInfo, archive_block, consolidate_block, close_dbs_block, send_close, reconsolidated_by,
  finish_unit, consolidate_complete, complete_block, open_dbs_block, register_in_dbs, record_unit,
  register_unit, protect_source, place_unit, handle_unit,
}
use condora.Output.Rules.{Rules, block_rules}

module _ {P : State → Type 0} (rules : Rules P) (o : OutputManager) (config : Stageout) where
  declare-Maintains :
      (scope : String) (block : BlockRow) (parts : String × (String × String))
      → Maintains P (declare o config scope block parts)
  unfolding declare
  declare-Maintains scope block parts = search block_rules

  publish-Maintains :
      (block : BlockRow) (scope rse : String) (told : List Replica)
      (parts : String × (String × String))
      → Maintains P (publish o config block scope rse told parts)
  unfolding publish remember
  publish-Maintains block scope rse told parts = search (block_rules, declare-Maintains)

  register_parts-Maintains :
      (block : BlockRow) (files : List OutputFile) (scope rse : String)
      (parts : Option (String × (String × String)))
      → Maintains P (register_parts o config block files scope rse parts)
  unfolding register_parts
  register_parts-Maintains block files scope rse none = λ s ok. ok
  register_parts-Maintains block files scope rse (some parts) =
      search (block_rules, publish-Maintains)

  register_at-Maintains :
      (block : BlockRow) (files : List OutputFile) (scope rse : String)
      → Maintains P (register_at o config block files scope rse)
  unfolding register_at
  register_at-Maintains block files scope rse =
      register_parts-Maintains block files scope rse (dataset_parts block.dataset_name)

  at_target-Maintains :
      (block : BlockRow) (files : List OutputFile) (target : Target)
      → Maintains P (at_target o config block files target)
  unfolding at_target
  at_target-Maintains block files (refused reason) = λ s ok. ok
  at_target-Maintains block files skipped = λ s ok. ok
  at_target-Maintains block files (at scope rse) = register_at-Maintains block files scope rse

  pub register_files_in_rucio-Maintains :
      (block : BlockRow) (files : List OutputFile) (site : String)
      → Maintains P (register_files_in_rucio o config block files site)
  unfolding register_files_in_rucio
  register_files_in_rucio-Maintains block files site = search (block_rules, at_target-Maintains)

  pub archive_block-Maintains : (block : BlockRow) → Maintains P (archive_block o block)
  unfolding archive_block
  archive_block-Maintains block = search block_rules

  pub consolidate_complete-Maintains :
      (block : BlockRow) → Maintains P (consolidate_complete o config block)
  unfolding consolidate_complete consolidate_block
  consolidate_complete-Maintains block = search block_rules

  pub reconsolidate-Maintains :
      (block : BlockRow) → Maintains P (consolidate_block o config reconsolidated_by block)
  unfolding consolidate_block
  reconsolidate-Maintains block = search block_rules

  send_close-Maintains :
      (block : BlockRow) (name : Option String) → Maintains P (send_close o block name)
  unfolding send_close
  send_close-Maintains block none = λ s ok. ok
  send_close-Maintains block (some name) = search block_rules

  close_dbs_block-Maintains : (block : BlockRow) → Maintains P (close_dbs_block o block)
  unfolding close_dbs_block
  close_dbs_block-Maintains block = search (block_rules, send_close-Maintains)

  pub complete_block-Maintains : (block : BlockRow) → Maintains P (complete_block o config block)
  unfolding complete_block
  complete_block-Maintains block = search (
    block_rules, close_dbs_block-Maintains, archive_block-Maintains, consolidate_complete-Maintains,
  )

  finish_unit-Maintains : (block : BlockRow) → Maintains P (finish_unit o config block)
  unfolding finish_unit
  finish_unit-Maintains block = search (block_rules, complete_block-Maintains)

  pub open_dbs_block-Maintains :
      (info : MergeInfo) (block : BlockRow) → Maintains P (open_dbs_block o info block)
  unfolding open_dbs_block
  open_dbs_block-Maintains info block = search block_rules

  pub register_in_dbs-Maintains :
      (info : MergeInfo) (block : BlockRow) → Maintains P (register_in_dbs o info block)
  unfolding register_in_dbs
  register_in_dbs-Maintains info block = search block_rules

  register_unit-Maintains :
      (info : MergeInfo) (block : BlockRow) → Maintains P (register_unit o config info block)
  unfolding register_unit
  register_unit-Maintains info block = search (block_rules, register_files_in_rucio-Maintains)

  protect_source-Maintains :
      (info : MergeInfo) (block : BlockRow) → Maintains P (protect_source o info block)
  unfolding protect_source
  protect_source-Maintains info block = search block_rules

  pub place_unit-Maintains :
      (info : MergeInfo) (block : BlockRow) → Maintains P (place_unit o config info block)
  unfolding place_unit
  place_unit-Maintains info block =
      search (block_rules, register_unit-Maintains, protect_source-Maintains, finish_unit-Maintains)

  pub handle_unit-Maintains :
      ((info' : MergeInfo) (block : BlockRow) → Maintains P (record_unit o info' block))
      → (info : MergeInfo) (block : Option BlockRow) → Maintains P (handle_unit o config info block)
  unfolding handle_unit
  handle_unit-Maintains records info none = λ s ok. ok
  handle_unit-Maintains records info (some block) = search (
    block_rules, open_dbs_block-Maintains, register_in_dbs-Maintains, records, place_unit-Maintains,
  )
