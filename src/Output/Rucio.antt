-- ===== src/Output/Rucio.antt =====
-- `_register_files_in_rucio`: files become known to Rucio at a site, under the names of the
-- stageout mode. A loaded block is refreshed by each update of its row.
use Prim.Native.String.{◌++◌ as append}
use condora.Base.{
  ℕ, String, Bool, List, [], ◌∷◌, ◌++◌, map, Option, none, some, ◌||◌, ◌&&◌, ◌==◌, ltb, is_empty,
  any, string_eq, nat_eq, if◌then◌else◌,
}
use condora.Base.Texts.{decimal}
use condora.Base.Paths.{is_blank, truthy, remove_prefix, ends_with, dataset_parts}
use condora.Services.{OutputFile, Replica, DataServices, register_replicas, add_did, attach_dids}
use condora.Rows.{BlockRow}
use condora.Repository.{update_processing_block}
use condora.Effects.{registration_error, M, ◌>>=◌, ◌>>◌, pure, throw, done, return, update, send}
use condora.Sites.TempRses.{TempRses, get_temp_rse_name, get_temp_rse_pfn_prefix}

-- The keys of `config_data` that are read here; a missing mode is "local", the others are "".
pub record Stageout : Type 0 where
  pub stageout_mode : String
  pub rucio_test_account : String
  pub consolidation_rse : String

-- The manager: its adapters, its site manager if it has one, and the clock during the call.
pub record OutputManager : Type 0 where
  pub services : DataServices
  pub site_manager : Option TempRses
  pub now : ℕ

abbrev pub is_local : String → Bool
is_local mode = mode == "local" || mode == "local-grid"

abbrev pub is_test : Stageout → Bool
is_test config = config.stageout_mode == "test"

abbrev pub is_production : Stageout → Bool
is_production config = config.stageout_mode == "production"

-- An update of the block's row, and the block afterwards.
unfoldable pub set_block : BlockRow → (BlockRow → BlockRow) → M BlockRow
unfolding update_processing_block
set_block block values = update (update_processing_block block.id values) >> pure (values block)

-- Where the files go: an error, nowhere, or a scope and an RSE.
pub data Target : Type 0 where
  refused : String → Target
  skipped : Target
  at : String → String → Target

abbrev pub temp_rse : Option TempRses → String → Option String
temp_rse none site = some (if ends_with site "_Temp" then site else append site "_Temp")
temp_rse (some rses) site = get_temp_rse_name rses site

unfoldable pub target_of : OutputManager → Stageout → String → Target
unfolding get_temp_rse_name ends_with
target_of o config site =
    if is_test config
    then if is_blank config.rucio_test_account
      then refused "rucio_test_account not set in config_data for test stageout mode"
      else elim (temp_rse o.site_manager site) [
        | none ↦ skipped
        | some rse ↦
            if is_blank rse then skipped else at (append "user." config.rucio_test_account) rse
      ]
    else at "cms" site

-- `f"{n:03d}"`
unfoldable pub three_digits : ℕ → String
unfolding decimal
three_digits n =
    if ltb n 10
    then append "00" (decimal n)
    else if ltb n 100
    then append "0" (decimal n)
    else decimal n

-- The container of test mode.
abbrev pub user_container : String → String → String → String
user_container primary processing tier =
    append "/" (append primary (append "/" (append processing (append "-" (append tier "/USER")))))

-- The prefix of the physical names, which only temporary storage has.
unfoldable pub pfn_prefix : Option TempRses → Stageout → String → Option String
unfolding get_temp_rse_pfn_prefix
pfn_prefix none config rse = none
pfn_prefix (some rses) config rse =
    if is_test config then truthy (get_temp_rse_pfn_prefix rses rse) else none

abbrev pub replica_of : String → Option String → OutputFile → Replica
replica_of scope prefix f = record {
  scope = scope;
  name = f.lfn;
  bytes = f.size;
  adler32 = truthy (some f.adler32);
  pfn = elim prefix [ none ↦ none | some p ↦ some (append p (remove_prefix "/store/temp/" f.lfn)) ];
}

-- The loop over the files: one without a name is passed over.
unfoldable pub replicas : String → Option String → List OutputFile → List Replica
unfolding remove_prefix
replicas scope prefix [] = []
replicas scope prefix (f ∷ fs) =
    let rest = replicas scope prefix fs in
    if is_blank f.lfn then rest else replica_of scope prefix f ∷ rest

unfoldable pub remember : BlockRow → String → M (Unit {0})
remember block rse s = (return tt, record s { registered = s.registered ++ (block.id, rse) ∷ [] })

-- `(block.id, rse) in _rucio_registered_cache`
unfoldable pub is_registered : BlockRow → String → M Bool
is_registered block rse s = (return (any (λ e. e.0 == block.id && e.1 == rse) s.registered), s)

module _ (o : OutputManager) (config : Stageout) where
  -- The block's DID, inside its container in test mode.
  unfoldable pub declare : String → BlockRow → String × (String × String) → M String
  unfolding send three_digits
  declare scope block (primary, (processing, tier)) =
      let suffix = append "#block_" (three_digits block.block_index) in
      let container = user_container primary processing tier in
      if is_test config
      then (do
        send o.services (add_did scope container "CONTAINER")
        send o.services (add_did scope (append container suffix) "DATASET")
        send o.services (attach_dids scope container ((scope, append container suffix) ∷ []))
        pure (append container suffix))
      else (do
        send o.services (add_did scope (append block.dataset_name suffix) "DATASET")
        pure (append block.dataset_name suffix))

  unfoldable pub publish :
      BlockRow → String → String → List Replica → String × (String × String) → M (Unit {0})
  unfolding send declare remember
  publish block scope rse told parts = do
    send o.services (register_replicas rse told)
    block_did ← declare scope block parts
    send o.services (attach_dids scope block_did (map (λ r. (scope, r.name)) told))
    remember block rse

  unfoldable pub register_parts :
      BlockRow
      → List OutputFile
      → String
      → String
      → Option (String × (String × String))
      → M (Unit {0})
  unfolding publish replicas pfn_prefix
  register_parts block output_files scope rse none =
      throw (registration_error (append "Cannot parse dataset name for Rucio: " block.dataset_name))
  register_parts block output_files scope rse (some parts) =
      let told = replicas scope (pfn_prefix o.site_manager config rse) output_files in
      if is_empty told then done else publish block scope rse told parts

  unfoldable pub register_at : BlockRow → List OutputFile → String → String → M (Unit {0})
  unfolding register_parts dataset_parts
  register_at block output_files scope rse =
      register_parts block output_files scope rse (dataset_parts block.dataset_name)

  unfoldable pub at_target : BlockRow → List OutputFile → Target → M (Unit {0})
  unfolding register_at
  at_target block output_files (refused reason) = throw (registration_error reason)
  at_target block output_files skipped = done
  at_target block output_files (at scope rse) = register_at block output_files scope rse

  unfoldable pub register_files_in_rucio : BlockRow → List OutputFile → String → M (Unit {0})
  unfolding at_target target_of
  register_files_in_rucio block output_files site =
      if is_local config.stageout_mode
      then done
      else at_target block output_files (target_of o config site)
