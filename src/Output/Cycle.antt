-- ===== src/Output/Cycle.antt =====
-- `process_blocks_for_workflow`, which tries failed calls of Rucio again in every cycle, and
-- `invalidate_blocks`, which takes the blocks of a workflow back.
use condora.Base.{
  ℕ, String, Bool, true, false, List, [], ◌∷◌, ◌++◌, map, Option, none, some, ◌||◌, ◌&&◌, ◌==◌, not,
  string_eq, if◌then◌else◌,
}
use condora.Base.Paths.{is_blank, truthy}
use condora.Base.Dict.{append_at, values}
use condora.Services.{
  OutputFile, DataServices, DataCall, create_rule, delete_rule, invalidate_block,
}
use condora.Enums.{BlockStatus}
use condora.Rows.{BlockRow}
use condora.Repository.{get_processing_blocks, update_processing_block}
use condora.Effects.{M, ◌>>=◌, ◌>>◌, pure, query, done, catching, try_quietly, for_each, send}
use condora.Sites.TempRses.{TempRses, get_temp_rse_name}
use condora.Output.{should_retry, is_archived}
use condora.Output.Rucio.{
  Stageout, OutputManager, is_local, is_test, is_production, set_block, is_registered,
  register_files_in_rucio,
}
use condora.Output.Blocks.{
  file_site, has_rucio_files, settled, reconsolidated_by, fail_attempt, archive_block,
  consolidate_block,
}

abbrev pub is_complete : BlockStatus → Bool
is_complete BlockStatus.complete = true
is_complete _ = false

abbrev pub is_open_status : BlockStatus → Bool
is_open_status BlockStatus.open_block = true
is_open_status _ = false

abbrev pub is_given : Option String → Bool
is_given o = elim (truthy o) [ none ↦ false | some s ↦ true ]

-- `files_by_site`, of the files whose site the test keeps.
unfoldable pub files_by_site :
    (OutputFile → String)
    → (String → Bool)
    → List OutputFile
    → List (String × List OutputFile)
    → List (String × List OutputFile)
unfolding append_at
files_by_site site_of kept [] groups = groups
files_by_site site_of kept (f ∷ files) groups =
    let grown = (if kept (site_of f) then append_at (site_of f) f groups else groups) in
    files_by_site site_of kept files grown

abbrev pub is_remote : String → Bool
is_remote site = not (is_blank site) && not (site == "local")

-- `f.get("site", block.site or "unknown")`
abbrev pub site_or_block : BlockRow → OutputFile → String
site_or_block block f = elim f.site [
  | none ↦ elim (truthy block.site) [ none ↦ "unknown" | some site ↦ site ]
  | some site ↦ site
]

module _ (o : OutputManager) (config : Stageout) where
  -- The files of one site, unless they were registered before.
  unfoldable pub register_at_rse :
      BlockRow → String → List OutputFile → Option String → M (Unit {0})
  unfolding register_files_in_rucio is_registered
  register_at_rse block site files none = done
  register_at_rse block site files (some rse) = do
    known ← is_registered block rse
    if is_blank rse || known
        then done
        else try_quietly (register_files_in_rucio o config block files site)

  unfoldable pub register_again : TempRses → BlockRow → String × List OutputFile → M (Unit {0})
  unfolding register_at_rse get_temp_rse_name
  register_again rses block (site, files) =
      register_at_rse block site files (get_temp_rse_name rses site)

  -- "Retry replica registration for files not yet in Rucio."
  unfoldable pub register_missing : Option TempRses → BlockRow → M (Unit {0})
  unfolding register_again files_by_site for_each
  register_missing none block = done
  register_missing (some rses) block =
      if is_local config.stageout_mode
      then done
      else for_each (files_by_site file_site is_remote block.output_files [])
          (register_again rses block)

  unfoldable pub retry_tape_archival : BlockRow → M BlockRow
  unfolding should_retry archive_block
  retry_tape_archival block = if should_retry o.now block then archive_block o block else pure block

  unfoldable pub retry_source_protection : BlockRow → M BlockRow
  unfolding should_retry send set_block fail_attempt
  retry_source_protection block =
      if should_retry o.now block
      then catching
          (do
            send o.services (create_rule block.dataset_name "local" "cms")
            set_block block settled)
          (fail_attempt o block)
      else pure block

  -- No file is at a site that Rucio knows.
  unfoldable pub has_nothing_to_move : Option TempRses → BlockRow → Bool
  unfolding has_rucio_files
  has_nothing_to_move none block = false
  has_nothing_to_move (some rses) block =
      is_test config && not (has_rucio_files rses block.output_files)

  unfoldable pub retry_consolidation : BlockRow → M BlockRow
  unfolding should_retry has_nothing_to_move files_by_site for_each register_files_in_rucio
      consolidate_block
  retry_consolidation block =
      if not (should_retry o.now block) || has_nothing_to_move o.site_manager block
      then pure block
      else (do
        for_each (files_by_site (site_or_block block) (λ site. true) block.output_files [])
            (λ group. register_files_in_rucio o config block group.1 group.0)
        consolidate_block o config reconsolidated_by block)

  -- The rules that only production has.
  unfoldable pub retry_rules : BlockRow → M BlockRow
  unfolding retry_tape_archival retry_source_protection
  retry_rules block =
      if not (is_production config)
      then pure block
      else if is_complete block.status
      then retry_tape_archival block
      else if is_open_status block.status && is_given block.rucio_last_error
      then retry_source_protection block
      else pure block

  -- "Retry consolidation rule if configured but missing"
  unfoldable pub retry_missing_rule : BlockRow → M (Unit {0})
  unfolding retry_consolidation
  retry_missing_rule block =
      if not (is_blank config.consolidation_rse)
        && ((is_complete block.status || is_archived block.status)
            && not (is_given block.consolidation_rule_id))
      then retry_consolidation block >> done
      else done

  unfoldable pub process_block : BlockRow → M (Unit {0})
  unfolding register_missing retry_rules retry_missing_rule
  process_block block = do
    register_missing o.site_manager block
    retried ← retry_rules block
    retry_missing_rule retried

  unfoldable pub process_blocks_for_workflow : ℕ → M (Unit {0})
  unfolding get_processing_blocks process_block for_each
  process_blocks_for_workflow workflow_id = do
    blocks ← query (get_processing_blocks workflow_id)
    for_each blocks process_block

abbrev pub invalidated_row : BlockRow → BlockRow
invalidated_row b = record b { status = BlockStatus.invalidated }

-- The calls that take a block back.
abbrev pub one_if_given : (String → DataCall) → Option String → List DataCall
one_if_given call o = elim (truthy o) [ none ↦ [] | some s ↦ call s ∷ [] ]

unfoldable pub cleanup_calls : BlockRow → List DataCall
cleanup_calls block =
    map delete_rule (values block.source_rule_ids)
    ++ (one_if_given delete_rule block.tape_rule_id
        ++ (one_if_given delete_rule block.consolidation_rule_id
            ++ (if block.dbs_block_open
                then one_if_given invalidate_block block.dbs_block_name
                else [])))

unfoldable pub invalidate_row : DataServices → BlockRow → M (Unit {0})
unfolding cleanup_calls for_each send set_block update_processing_block
invalidate_row services block = do
  for_each (cleanup_calls block) (λ call. try_quietly (send services call >> done))
  set_block block invalidated_row
  done

unfoldable pub invalidate_blocks : DataServices → ℕ → M (Unit {0})
unfolding get_processing_blocks invalidate_row for_each
invalidate_blocks services workflow_id = do
  blocks ← query (get_processing_blocks workflow_id)
  for_each blocks (invalidate_row services)
