-- ===== src/Classify.antt =====
-- src/condora/core/post_classifier.py: the classification of a failed job, as the planner's host
-- knows it. The copy that runs on the submit host is in Classify/Collector.antt.
pub mod Collector
pub mod Coherent
pub mod Tables
pub mod Agree
mod Examples
use condora.Base.{
  ℕ, Bool, true, false, List, [], ◌∷◌, ◌&&◌, not, ℤ, is_code, in_codes, is_empty, any,
  if◌then◌else◌,
}
use condora.Base.Texts.{Text, codes, has_infix, lower, search, Pattern, literal, gap}

pub data Category : Type 0 where
  permanent bad_data infrastructure infrastructure_memory transient success : Category

pub data Action : Type 0 where
  permanent_failure retry retry_with_cooloff no_action : Action

pub record Classification : Type 0 where
  pub category : Category
  pub retryable : Bool
  pub bad_input_files : List Text
  pub action : Action
  pub memory_exceeded : Bool

abbrev pub permanent_codes : List ℕ
permanent_codes =
    70 ∷ 73 ∷ 7000 ∷ 7001 ∷ 7002 ∷ 8001 ∷ 8006 ∷ 8009 ∷ 8023 ∷ 8026 ∷ 8501 ∷ 50110 ∷ 50113 ∷ 50664
    ∷ 71102 ∷ 71104 ∷ 71105 ∷ []

abbrev pub data_codes : List ℕ
data_codes = 8016 ∷ 8021 ∷ 8027 ∷ 8028 ∷ 8034 ∷ []

abbrev pub infrastructure_codes : List ℕ
infrastructure_codes =
    50660 ∷ 50661 ∷ 8004 ∷ 8030 ∷ 8031 ∷ 50 ∷ 71 ∷ 72 ∷ 74 ∷ 81 ∷ 8020 ∷ 8033 ∷ 8035 ∷ 10003 ∷ 10004
    ∷ 10005 ∷ 10006 ∷ 10007 ∷ 10008 ∷ 10009 ∷ 10018 ∷ 10032 ∷ 10042 ∷ 10043 ∷ 60311 ∷ 60315 ∷ 60316
    ∷ 60321 ∷ []

abbrev pub memory_codes : List ℕ
memory_codes = 50660 ∷ 50661 ∷ 8004 ∷ 8030 ∷ 8031 ∷ []

abbrev pub infra_message_patterns : List Text
infra_message_patterns = codes "site-local-config" ∷ []

unfoldable pub is_infra_by_message : Text → Bool
unfolding has_infix lower
is_infra_by_message error_message =
    let msg_lower = lower error_message in
    any (λ pat. has_infix pat msg_lower) infra_message_patterns

abbrev pub stageout_patterns : List Pattern
stageout_patterns =
    literal (codes "Permission refused")
    ∷ literal (codes "HTTP 403")
    ∷ gap (codes "gfal-mkdir") (codes "failed")
    ∷ gap (codes "xrdcp") (codes "failed")
    ∷ gap (codes "gfal-copy") (codes "failed")
    ∷ gap (codes "stageout") (codes "failed")
    ∷ literal (codes "No space left on device")
    ∷ literal (codes "HTTP 507")
    ∷ []

-- The dictionaries that the branches return.
abbrev pub result : Category → Bool → Action → Bool → Classification
result category retryable action memory_exceeded = record {
  category = category;
  retryable = retryable;
  bad_input_files = [];
  action = action;
  memory_exceeded = memory_exceeded;
}

-- The tests on `log_tail`, which are tried on what is transient so far.
unfoldable pub is_watchdog_kill : Text → Bool
unfolding has_infix
is_watchdog_kill log_tail = has_infix (codes "WATCHDOG: CPU stalled") log_tail

unfoldable pub is_stageout_failure : Text → Bool
unfolding search
is_stageout_failure log_tail = any (λ pat. search pat log_tail) stageout_patterns

unfoldable pub classify_transient : Text → Classification
classify_transient log_tail =
    if not (is_empty log_tail)
    then if is_watchdog_kill log_tail
      then result infrastructure true retry_with_cooloff false
      else if is_stageout_failure log_tail
      then result infrastructure true retry_with_cooloff false
      else result transient true retry false
    else result transient true retry false

-- From `code == 80` on: the code decides.
unfoldable pub classify_code : ℤ → Text → Text → Classification
unfolding classify_transient
classify_code code error_message log_tail =
    if is_code code 80
    then result permanent false permanent_failure false
    else if in_codes code permanent_codes
    then if is_code code 8001 && (not (is_empty error_message) && is_infra_by_message error_message)
      then result infrastructure true retry_with_cooloff false
      else result permanent false permanent_failure false
    else if in_codes code data_codes
    then result bad_data false permanent_failure false
    else if in_codes code memory_codes
    then result infrastructure_memory true retry_with_cooloff true
    else if in_codes code infrastructure_codes
    then result infrastructure true retry_with_cooloff false
    else classify_transient log_tail

unfoldable pub is_zombie : Text → Bool
unfolding has_infix
is_zombie reason = not (is_empty reason) && has_infix (codes "zombie") reason

unfoldable pub is_hard_wall_time : Text → Bool
unfolding has_infix
is_hard_wall_time reason = not (is_empty reason) && has_infix (codes "hard wall time") reason

unfoldable pub classify_error : ℤ → ℤ → Text → Text → Text → Classification
unfolding classify_code
classify_error cmssw_exit_code job_exit_code error_message log_tail periodic_remove_reason =
    if is_zombie periodic_remove_reason
    then result infrastructure false permanent_failure false
    else if is_hard_wall_time periodic_remove_reason
    then result permanent false permanent_failure false
    else if is_code cmssw_exit_code 0 && is_code job_exit_code 0
    then result success false no_action false
    else classify_code (if is_code cmssw_exit_code 0 then job_exit_code else cmssw_exit_code)
        error_message log_tail
