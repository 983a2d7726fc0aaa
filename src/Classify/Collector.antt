-- ===== src/Classify/Collector.antt =====
-- The script that `generate_collector_script` writes for the submit host: its own copy of
-- `classify_error`, which does not read the log, and the part of its `main` that does.
use condora.Base.{
  ℕ, Bool, true, false, List, [], ◌∷◌, Option, none, some, ◌&&◌, ◌||◌, not, ℤ, pos, is_code,
  in_codes, is_empty, any, leb, if◌then◌else◌,
}
use condora.Base.Texts.{Text, codes, has_infix, lower, search, literal, gap}
use condora.Classify.{
  Category, permanent, bad_data, infrastructure, infrastructure_memory, transient, success,
  permanent_failure, retry, retry_with_cooloff, no_action, Classification, result,
}

abbrev pub permanent_codes : List ℕ
permanent_codes =
    70 ∷ 73 ∷ 7000 ∷ 7001 ∷ 7002 ∷ 8001 ∷ 8006 ∷ 8009 ∷ 8023 ∷ 8026 ∷ 8501 ∷ 50110 ∷ 50113 ∷ 50664
    ∷ 71102 ∷ 71104 ∷ 71105 ∷ []

abbrev pub data_codes : List ℕ
data_codes = 8016 ∷ 8021 ∷ 8027 ∷ 8028 ∷ 8034 ∷ []

abbrev pub infrastructure_codes : List ℕ
infrastructure_codes =
    50660 ∷ 50661 ∷ 8004 ∷ 8030 ∷ 8031 ∷ 50 ∷ 71 ∷ 72 ∷ 74 ∷ 81 ∷ 8020 ∷ 8033 ∷ 8035 ∷ 10003 ∷ 10004
    ∷ 10005 ∷ 10006 ∷ 10007 ∷ 10008 ∷ 10009 ∷ 10018 ∷ 10032 ∷ 10042 ∷ 10043 ∷ 60311 ∷ 60315 ∷ 60316
    ∷ 60321 ∷ []

abbrev pub memory_codes : List ℕ
memory_codes = 50660 ∷ 50661 ∷ 8004 ∷ 8030 ∷ 8031 ∷ []

unfoldable pub is_infra_by_message : Text → Bool
unfolding has_infix lower
is_infra_by_message msg =
    let msg_lower = lower msg in
    any (λ pat. has_infix pat msg_lower) (codes "site-local-config" ∷ [])

-- `classify_error` of the script.
unfoldable pub classify_error : ℤ → ℤ → Text → Text → Classification
unfolding has_infix
classify_error cmssw_exit_code job_exit_code error_message periodic_remove_reason =
    if not (is_empty periodic_remove_reason) && has_infix (codes "zombie") periodic_remove_reason
    then result infrastructure false permanent_failure false
    else if not (is_empty periodic_remove_reason)
        && has_infix (codes "hard wall time") periodic_remove_reason
    then result permanent false permanent_failure false
    else if is_code cmssw_exit_code 0 && is_code job_exit_code 0
    then result success false no_action false
    else let code = if is_code cmssw_exit_code 0 then job_exit_code else cmssw_exit_code in
      if is_code code 80
      then result permanent false permanent_failure false
      else if in_codes code permanent_codes
      then if is_code code 8001
          && (not (is_empty error_message) && is_infra_by_message error_message)
        then result infrastructure true retry_with_cooloff false
        else result permanent false permanent_failure false
      else if in_codes code data_codes
      then result bad_data false permanent_failure false
      else if in_codes code memory_codes
      then result infrastructure_memory true retry_with_cooloff true
      else if in_codes code infrastructure_codes
      then result infrastructure true retry_with_cooloff false
      else result transient true retry false

-- What `parse_fjr` hands over from the job report.
pub record CmsswData : Type 0 where
  pub exit_code : ℤ
  pub error_message : Text
  pub input_files : List Text

abbrev pub is_transient : Category → Bool
is_transient transient = true
is_transient _ = false

abbrev pub is_data : Category → Bool
is_data bad_data = true
is_data _ = false

abbrev pub exit_code_of : Option CmsswData → ℤ
exit_code_of none = pos 0
exit_code_of (some d) = d.exit_code

abbrev pub error_message_of : Option CmsswData → Text
error_message_of none = []
error_message_of (some d) = d.error_message

-- The watchdog's line in the log.
unfoldable pub upgrade_watchdog : Text → Classification → Classification
unfolding has_infix
upgrade_watchdog log_tail c =
    if is_transient c.category && not (is_empty log_tail)
    then if has_infix (codes "WATCHDOG: CPU stalled") log_tail
      then record c { category = infrastructure; action = retry_with_cooloff }
      else c
    else c

-- The loop over the script's own `_STAGEOUT_PATTERNS`, which stops at the first that is found.
unfoldable pub upgrade_stageout : Text → Classification → Classification
unfolding search
upgrade_stageout log_tail c =
    if is_transient c.category && not (is_empty log_tail)
    then if any (λ pat. search pat log_tail)
        (literal (codes "Permission refused")
          ∷ literal (codes "HTTP 403")
          ∷ gap (codes "gfal-mkdir") (codes "failed")
          ∷ gap (codes "xrdcp") (codes "failed")
          ∷ gap (codes "gfal-copy") (codes "failed")
          ∷ gap (codes "stageout") (codes "failed")
          ∷ literal (codes "No space left on device")
          ∷ literal (codes "HTTP 507")
          ∷ [])
      then record c { category = infrastructure; action = retry_with_cooloff }
      else c
    else c

-- `if classification["category"] == "data" and cmssw_data: …`
unfoldable pub fill_bad_input_files : Option CmsswData → Classification → Classification
fill_bad_input_files none c = c
fill_bad_input_files (some d) c =
    if is_data c.category then record c { bad_input_files = d.input_files } else c

-- The classification that `main` writes into the side file.
unfoldable pub collect : Option CmsswData → ℤ → Text → Text → Classification
collect cmssw_data job_exit_code log_tail periodic_remove_reason =
    let classified =
      classify_error (exit_code_of cmssw_data) job_exit_code (error_message_of cmssw_data)
        periodic_remove_reason in
    fill_bad_input_files cmssw_data
      (upgrade_stageout log_tail (upgrade_watchdog log_tail classified))

-- `is_final`
unfoldable pub is_final : ℤ → ℕ → ℕ → Classification → Bool
is_final job_exit_code retry_num max_retries classification =
    is_code job_exit_code 0 || (not classification.retryable || leb max_retries retry_num)
