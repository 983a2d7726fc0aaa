-- ===== src/Sites/TempRses.antt =====
-- src/condora/core/site_manager.py: the temporary storage (`_Temp` RSE) of a site, as cached from
-- Rucio.
use Prim.Native.String.{◌++◌ as append}
use condora.Base.{
  String, Bool, true, false, List, [], ◌∷◌, Option, none, some, contains, string_eq, if◌then◌else◌,
}
use condora.Base.Paths.{ends_with}
use condora.Base.Dict.{lookup}

-- `_temp_rse_cache` and `_temp_rse_pfn_cache`
pub record TempRses : Type 0 where
  pub names : List String
  pub pfn_prefixes : List (String × String)

unfoldable pub get_temp_rse_name : TempRses → String → Option String
unfolding ends_with
get_temp_rse_name rses site =
    if ends_with site "_Temp"
    then if contains site rses.names then some site else none
    else if contains (append site "_Temp") rses.names
    then some (append site "_Temp")
    else if contains (append site "_Disk_Temp") rses.names
    then some (append site "_Disk_Temp")
    else none

unfoldable pub has_temp_rse : TempRses → String → Bool
unfolding get_temp_rse_name
has_temp_rse rses site = elim (get_temp_rse_name rses site) [ none ↦ false | some rse ↦ true ]

unfoldable pub get_temp_rse_pfn_prefix : TempRses → String → Option String
unfolding lookup
get_temp_rse_pfn_prefix rses rse = lookup rse rses.pfn_prefixes

-- What Rucio answers for an RSE: a prefix or none; nothing where it raises.
abbrev pub add_prefix : (String → Option String) → List String → List (String × String)
add_prefix prefix_of [] = []
add_prefix prefix_of (rse ∷ rses) =
    let rest = add_prefix prefix_of rses in
    elim (prefix_of rse) [ none ↦ rest | some prefix ↦ (rse, prefix) ∷ rest ]

-- `sync_temp_rses`, with Rucio's list of the RSEs, or none where it raises: the caches afterwards.
unfoldable pub sync_temp_rses :
    Option (List String) → (String → Option String) → TempRses → TempRses
sync_temp_rses none prefix_of before = before
sync_temp_rses (some rses) prefix_of before = record {
  names = rses;
  pfn_prefixes = add_prefix prefix_of rses;
}
