-- ===== src/Output/Blocks.antt =====
-- `_complete_block` and `handle_work_unit_completion`: a finished work unit is registered in its
-- block, and the last one closes the block and asks for its rules.
use Prim.Native.String.{◌++◌ as append}
use condora.Base.{
  ℕ, String, Bool, true, List, [], ◌∷◌, ◌++◌, map, Option, none, some, ◌||◌, ◌&&◌, ◌==◌, not, leb,
  length, is_empty, any, string_eq, if◌then◌else◌,
}
use condora.Base.Texts.{codes, has_infix, lower}
use condora.Base.Paths.{is_blank, truthy, dataset_parts}
use condora.Base.Dict.{insert}
use condora.Services.{OutputFile, open_block, register_files, close_block, create_rule}
use condora.Enums.{BlockStatus}
use condora.Rows.{BlockRow}
use condora.Repository.{get_processing_block}
use condora.Effects.{
  Exception, condor_error, value_error, service_error, registration_error, M, ◌>>=◌, ◌>>◌, pure,
  throw, query, done, catching, send,
}
use condora.Sites.TempRses.{TempRses, has_temp_rse}
use condora.Output.{failed_attempt}
use condora.Output.Rucio.{
  Stageout, OutputManager, is_local, is_test, is_production, user_container, set_block,
  register_files_in_rucio,
}

-- `str(e)`
abbrev pub text_of : Exception → String
text_of (service_error text) = text
text_of (registration_error text) = text
text_of condor_error = ""
text_of value_error = ""

-- What the caller says of a finished work unit; it gives all the keys.
pub record MergeInfo : Type 0 where
  pub output_files : List OutputFile
  pub site : String
  pub node_name : String

-- `_record_rucio_failure`, and the error that the callers raise after it.
unfoldable pub fail_attempt : OutputManager → BlockRow → Exception → M BlockRow
unfolding set_block
fail_attempt o block e =
    set_block block (failed_attempt o.now (text_of e) block.rucio_attempt_count)
    >> throw (registration_error (text_of e))

abbrev pub is_done : BlockRow → Bool
is_done block = leb block.total_work_units (length block.completed_work_units)

-- What a success of a retry resets.
abbrev pub settled : BlockRow → BlockRow
settled b = record b { rucio_last_error = none; rucio_attempt_count = 0 }

abbrev pub archived_by : String → BlockRow → BlockRow
archived_by rule b = record (settled b) { tape_rule_id = some rule; status = BlockStatus.archived }

abbrev pub consolidated_by : String → BlockRow → BlockRow
consolidated_by rule b = record b { consolidation_rule_id = some rule }

abbrev pub reconsolidated_by : String → BlockRow → BlockRow
reconsolidated_by rule b = settled (consolidated_by rule b)

-- "duplicate" in err_str or "already exists" in err_str
unfoldable pub is_duplicate : Exception → Bool
unfolding has_infix lower
is_duplicate e =
    let text = lower (codes (text_of e)) in
    has_infix (codes "duplicate") text || has_infix (codes "already exists") text

-- `f.get("site", "")` of a stored file.
abbrev pub file_site : OutputFile → String
file_site f = elim f.site [ none ↦ "" | some site ↦ site ]

-- One of the files lies at a site with temporary storage.
unfoldable pub has_rucio_files : TempRses → List OutputFile → Bool
unfolding has_temp_rse
has_rucio_files rses files =
    any (λ f. not (is_blank (file_site f)) && has_temp_rse rses (file_site f)) files

unfoldable pub may_have_rucio_files : Option TempRses → List OutputFile → Bool
unfolding has_rucio_files
may_have_rucio_files none files = true
may_have_rucio_files (some rses) files = has_rucio_files rses files

-- The DID that the consolidation rule is for: in test mode the container.
unfoldable pub rule_did : Stageout → BlockRow → String
unfolding dataset_parts
rule_did config block = elim (dataset_parts block.dataset_name) [
  | none ↦ block.dataset_name
  | some parts ↦
      if is_test config then user_container parts.0 parts.1.0 parts.1.1 else block.dataset_name
]

abbrev pub completed_row : BlockRow → BlockRow
completed_row b = record b { dbs_block_closed = true; status = BlockStatus.complete }

abbrev pub opened_as : String → BlockRow → BlockRow
opened_as name b = record b { dbs_block_name = some name; dbs_block_open = true }

abbrev pub with_rule : List (String × String) → BlockRow → BlockRow
with_rule rules b = record b { source_rule_ids = rules }

abbrev pub at_site : String → OutputFile → OutputFile
at_site site f = record f { site = some site }

-- The columns with the finished work unit, from the block as it was loaded.
abbrev pub recorded_by : MergeInfo → BlockRow → BlockRow → BlockRow
recorded_by info block b = record b {
  completed_work_units = block.completed_work_units ++ info.node_name ∷ [];
  source_rule_ids = block.source_rule_ids;
  output_files = block.output_files ++ map (at_site info.site) info.output_files;
  site = some info.site;
}

module _ (o : OutputManager) where
  -- The `try` around the tape rule, of a complete block and of a retry.
  unfoldable pub archive_block : BlockRow → M BlockRow
  unfolding send set_block fail_attempt
  archive_block block =
      catching
        (do
          rule ← send o.services (create_rule block.dataset_name "tier=1&type=TAPE" "cms")
          set_block block (archived_by rule))
        (fail_attempt o block)

  -- The `try` around the consolidation rule; `success` is the update for a rule.
  unfoldable pub consolidate_block :
      Stageout → (String → BlockRow → BlockRow) → BlockRow → M BlockRow
  unfolding send set_block fail_attempt is_duplicate rule_did
  consolidate_block config success block =
      let scope = (if is_test config then append "user." config.rucio_test_account else "cms") in
      catching
        (do
          rule ←
              send o.services (create_rule (rule_did config block) config.consolidation_rse scope)
          set_block block (success rule))
        (λ e.
          if is_duplicate e then set_block block (success "existing") else fail_attempt o block e)

  unfoldable pub send_close : BlockRow → Option String → M (Unit {0})
  unfolding send
  send_close block none = done
  send_close block (some name) =
      if block.dbs_block_closed then done else send o.services (close_block name) >> done

  unfoldable pub close_dbs_block : BlockRow → M BlockRow
  unfolding send_close set_block
  close_dbs_block block =
      send_close block (truthy block.dbs_block_name) >> set_block block completed_row

  -- The consolidation rule, where one is wanted and there is something to move.
  unfoldable pub consolidate_complete : Stageout → BlockRow → M BlockRow
  unfolding consolidate_block may_have_rucio_files
  consolidate_complete config block =
      if is_blank config.consolidation_rse
        || (not (may_have_rucio_files o.site_manager block.output_files) && is_test config)
      then pure block
      else consolidate_block config consolidated_by block

  unfoldable pub complete_block : Stageout → BlockRow → M BlockRow
  unfolding close_dbs_block archive_block consolidate_complete
  complete_block config block = do
    closed ← close_dbs_block block
    archived ← if is_production config then archive_block closed else pure closed
    consolidate_complete config archived

  -- "Open DBS block on first work unit"
  unfoldable pub open_dbs_block : MergeInfo → BlockRow → M BlockRow
  unfolding send set_block
  open_dbs_block info block = if block.dbs_block_open then pure block else (do
    name ← send o.services (open_block block.dataset_name block.block_index info.site)
    set_block block (opened_as name))

  unfoldable pub register_in_dbs : MergeInfo → BlockRow → M (Unit {0})
  unfolding send
  register_in_dbs info block =
      if is_empty info.output_files
      then done
      else send o.services (register_files block.dbs_block_name info.output_files) >> done

  -- "Update block state FIRST"
  unfoldable pub record_unit : MergeInfo → BlockRow → M BlockRow
  unfolding set_block
  record_unit info block = set_block block (recorded_by info block)

  unfoldable pub register_unit : Stageout → MergeInfo → BlockRow → M (Unit {0})
  unfolding register_files_in_rucio
  register_unit config info block =
      if is_empty info.output_files || (info.site == "local" || is_local config.stageout_mode)
      then done
      else register_files_in_rucio o config block info.output_files info.site

  -- The source protection rule.
  unfoldable pub protect_source : MergeInfo → BlockRow → M BlockRow
  unfolding send set_block fail_attempt insert
  protect_source info block =
      catching
        (do
          rule ← send o.services (create_rule block.dataset_name info.site "cms")
          set_block block (with_rule (insert info.node_name rule block.source_rule_ids)))
        (fail_attempt o block)

  -- "Check if block is now complete"
  unfoldable pub finish_unit : Stageout → BlockRow → M (Unit {0})
  unfolding complete_block
  finish_unit config block = if is_done block then complete_block config block >> done else done

  -- What follows the update of the block: Rucio, and the end of the block.
  unfoldable pub place_unit : Stageout → MergeInfo → BlockRow → M (Unit {0})
  unfolding register_unit protect_source finish_unit
  place_unit config info block = do
    register_unit config info block
    protected ← if is_production config then protect_source info block else pure block
    finish_unit config protected

  unfoldable pub handle_unit : Stageout → MergeInfo → Option BlockRow → M (Unit {0})
  unfolding open_dbs_block register_in_dbs record_unit place_unit
  handle_unit config info none = done
  handle_unit config info (some block) = do
    opened ← open_dbs_block info block
    register_in_dbs info opened
    recorded ← record_unit info opened
    place_unit config info recorded

  unfoldable pub handle_work_unit_completion : Stageout → ℕ → MergeInfo → M (Unit {0})
  unfolding get_processing_block handle_unit
  handle_work_unit_completion config block_id info = do
    block ← query (get_processing_block block_id)
    handle_unit config info block
