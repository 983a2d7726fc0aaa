-- ===== src/Classify/Agree.antt =====
-- The script on the submit host beside the function on the host of the planner.
use condora.Base.{
  List, [], Option, none, some, ◌≡◌, refl, ◌&&◌, ◌||◌, not, ℤ, pos, is_empty, if◌then◌else◌, arith,
}
use condora.Base.Texts.{Text}
use condora.Classify.{
  infrastructure, retry_with_cooloff, Classification, is_infra_by_message, is_watchdog_kill,
  is_zombie, is_hard_wall_time, is_stageout_failure, classify_error,
}
use condora.Classify.Coherent.{classify_error-IsCoherent}
use condora.Classify.Collector
use condora.Classify.Collector.{
  CmsswData, is_data, is_transient, exit_code_of, error_message_of, upgrade_watchdog,
  upgrade_stageout, fill_bad_input_files, collect,
}

abbrev input_files_of : Option CmsswData → List Text
input_files_of none = []
input_files_of (some d) = d.input_files

-- Without a log the two functions are the same ladder.
classify_error_same :
    (cmssw_exit_code job_exit_code : ℤ) (error_message reason : Text)
    → Collector.classify_error cmssw_exit_code job_exit_code error_message reason
      ≡ classify_error cmssw_exit_code job_exit_code error_message [] reason
unfolding Collector.classify_error classify_error is_infra_by_message Collector.is_infra_by_message
    is_zombie is_hard_wall_time
classify_error_same cmssw_exit_code job_exit_code error_message reason = refl

-- What the script does with the log, in the terms of the function on the host.
upgraded : Text → Classification → Classification
upgraded log_tail c =
    if is_transient c.category && not (is_empty log_tail)
    then if is_watchdog_kill log_tail || is_stageout_failure log_tail
      then record c { category = infrastructure; action = retry_with_cooloff }
      else c
    else c

upgrade_same :
    (log_tail : Text) (c : Classification)
    → upgrade_stageout log_tail (upgrade_watchdog log_tail c) ≡ upgraded log_tail c
unfolding upgrade_stageout upgrade_watchdog upgraded is_watchdog_kill is_stageout_failure
upgrade_same log_tail c = ground arith

upgraded_host :
    (cmssw_exit_code job_exit_code : ℤ) (error_message log_tail reason : Text)
    → upgraded log_tail (classify_error cmssw_exit_code job_exit_code error_message [] reason)
      ≡ classify_error cmssw_exit_code job_exit_code error_message log_tail reason
unfolding upgraded classify_error
upgraded_host cmssw_exit_code job_exit_code error_message log_tail reason = ground arith

classified :
    (cmssw_exit_code job_exit_code : ℤ) (error_message log_tail reason : Text)
    → upgrade_stageout log_tail (
        upgrade_watchdog log_tail
          (Collector.classify_error cmssw_exit_code job_exit_code error_message reason))
      ≡ classify_error cmssw_exit_code job_exit_code error_message log_tail reason
classified c j m log_tail reason =
    rw (classify_error_same c j m reason, upgrade_same) (upgraded_host c j m log_tail reason)

-- For every job report, exit code, log and reason: the classification that the collector script
-- writes is the one that `classify_error` gives on the same log, with the input files of the
-- report filled in when its category is data.
pub collect-classify_error :
    (cmssw_data : Option CmsswData) (job_exit_code : ℤ) (log_tail reason : Text)
    → collect cmssw_data job_exit_code log_tail reason ≡ (
        let c =
          classify_error
            (exit_code_of cmssw_data)
            job_exit_code
            (error_message_of cmssw_data)
            log_tail
            reason in
        record c { bad_input_files = if is_data c.category then input_files_of cmssw_data else [] })
unfolding collect fill_bad_input_files
collect-classify_error none job_exit_code log_tail reason = ground (
  arith,
  classified (pos 0) job_exit_code [] log_tail reason,
  classify_error-IsCoherent (pos 0) job_exit_code [] log_tail reason,
)
collect-classify_error (some d) job_exit_code log_tail reason = ground (
  arith,
  classified d.exit_code job_exit_code d.error_message log_tail reason,
  classify_error-IsCoherent d.exit_code job_exit_code d.error_message log_tail reason,
)
