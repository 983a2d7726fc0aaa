-- ===== src/Output/Cycles.antt =====
-- Whatever the calls and the updates keep, `process_blocks_for_workflow` and `invalidate_blocks`
-- keep.
use condora.Base.{ℕ, String, List, Option, none, some}
use condora.Services.{DataServices, OutputFile}
use condora.Rows.{BlockRow}
use condora.Repository.{get_processing_blocks}
use condora.Effects.{State}
use condora.Effects.Maintains.{Maintains, for_each-Maintains}
use condora.Sites.TempRses.{TempRses, get_temp_rse_name}
use condora.Output.Rucio.{OutputManager, Stageout}
use condora.Output.Cycle.{
  register_at_rse, register_again, register_missing, retry_tape_archival, retry_source_protection,
  retry_consolidation, retry_rules, retry_missing_rule, process_block, process_blocks_for_workflow,
  invalidate_row, invalidate_blocks,
}
use condora.Output.Rules.{Rules, block_rules}
use condora.Output.Operations.{
  register_files_in_rucio-Maintains, archive_block-Maintains, reconsolidate-Maintains,
}

module _ {P : State → Type 0} (rules : Rules P) (o : OutputManager) (config : Stageout) where
  register_at_rse-Maintains :
      (block : BlockRow) (site : String) (files : List OutputFile) (rse : Option String)
      → Maintains P (register_at_rse o config block site files rse)
  unfolding register_at_rse
  register_at_rse-Maintains block site files none = λ s ok. ok
  register_at_rse-Maintains block site files (some rse) =
      search (block_rules, register_files_in_rucio-Maintains)

  register_again-Maintains :
      (rses : TempRses) (block : BlockRow) (group : String × List OutputFile)
      → Maintains P (register_again o config rses block group)
  unfolding register_again
  register_again-Maintains rses block (site, files) =
      register_at_rse-Maintains block site files (get_temp_rse_name rses site)

  register_missing-Maintains :
      (rses : Option TempRses) (block : BlockRow)
      → Maintains P (register_missing o config rses block)
  unfolding register_missing
  register_missing-Maintains none block = λ s ok. ok
  register_missing-Maintains (some rses) block = search (block_rules, register_again-Maintains)

  retry_source_protection-Maintains :
      (block : BlockRow) → Maintains P (retry_source_protection o config block)
  unfolding retry_source_protection
  retry_source_protection-Maintains block = search block_rules

  retry_consolidation-Maintains :
      (block : BlockRow) → Maintains P (retry_consolidation o config block)
  unfolding retry_consolidation
  retry_consolidation-Maintains block =
      search (block_rules, register_files_in_rucio-Maintains, reconsolidate-Maintains)

  retry_tape_archival-Maintains :
      (block : BlockRow) → Maintains P (retry_tape_archival o config block)
  unfolding retry_tape_archival
  retry_tape_archival-Maintains block = search (block_rules, archive_block-Maintains)

  retry_rules-Maintains : (block : BlockRow) → Maintains P (retry_rules o config block)
  unfolding retry_rules
  retry_rules-Maintains block =
      search (block_rules, retry_tape_archival-Maintains, retry_source_protection-Maintains)

  retry_missing_rule-Maintains :
      (block : BlockRow) → Maintains P (retry_missing_rule o config block)
  unfolding retry_missing_rule
  retry_missing_rule-Maintains block = search (block_rules, retry_consolidation-Maintains)

  process_block-Maintains : (block : BlockRow) → Maintains P (process_block o config block)
  unfolding process_block
  process_block-Maintains block =
      search (
        block_rules, register_missing-Maintains, retry_rules-Maintains,
        retry_missing_rule-Maintains,
      )

  pub process_blocks_for_workflow-Maintains :
      (workflow_id : ℕ) → Maintains P (process_blocks_for_workflow o config workflow_id)
  unfolding process_blocks_for_workflow
  process_blocks_for_workflow-Maintains workflow_id s =
      for_each-Maintains P (get_processing_blocks workflow_id s.db) _ process_block-Maintains s

invalidate_row-Maintains :
    {P : State → Type 0} (rules : Rules P) (services : DataServices) (block : BlockRow)
    → Maintains P (invalidate_row services block)
unfolding invalidate_row
invalidate_row-Maintains rules services block = search block_rules

pub invalidate_blocks-Maintains :
    {P : State → Type 0} (rules : Rules P) (services : DataServices) (workflow_id : ℕ)
    → Maintains P (invalidate_blocks services workflow_id)
unfolding invalidate_blocks
invalidate_blocks-Maintains {P = P} rules services workflow_id s =
    for_each-Maintains P (get_processing_blocks workflow_id s.db) _
      (invalidate_row-Maintains rules services) s
