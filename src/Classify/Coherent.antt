-- ===== src/Classify/Coherent.antt =====
-- What the fields of a classification have to do with one another.
use condora.Base.{true, false, [], ◌≡◌, ◌≢◌, ◌↔◌, ◌⊎◌, ℤ, is_code, arith}
use condora.Base.Texts.{Text}
use condora.Classify.{
  bad_data, infrastructure_memory, permanent, transient, success, retry, retry_with_cooloff,
  no_action, Classification, is_zombie, is_hard_wall_time, classify_code, classify_error,
}

pub record IsCoherent (c : Classification) : Type 0 where
  pub retried : (c.retryable ≡ true) ↔ ((c.action ≡ retry) ⊎ (c.action ≡ retry_with_cooloff))
  pub memory : (c.memory_exceeded ≡ true) ↔ (c.category ≡ infrastructure_memory)
  pub done : (c.action ≡ no_action) ↔ (c.category ≡ success)
  pub final : (c.retryable ≡ false) ⊎ ((c.category ≢ bad_data) × (c.category ≢ permanent))
  pub open_ended : (c.action ≡ retry) ⊎ (c.category ≢ transient)
  pub no_files : c.bad_input_files ≡ []

classify_code-IsCoherent :
    (code : ℤ) (error_message log_tail : Text)
    → IsCoherent (classify_code code error_message log_tail)
unfolding classify_code
classify_code-IsCoherent code error_message log_tail = ground arith

pub classify_error-IsCoherent :
    (cmssw_exit_code job_exit_code : ℤ) (error_message log_tail reason : Text)
    → IsCoherent (classify_error cmssw_exit_code job_exit_code error_message log_tail reason)
unfolding classify_error
classify_error-IsCoherent cmssw_exit_code job_exit_code error_message log_tail reason = ground arith

-- A job is classified as a success exactly when both exit codes are 0 and HTCondor did not remove
-- it as a zombie or for its wall time.
pub classify_error-success_iff :
    (cmssw_exit_code job_exit_code : ℤ) (error_message log_tail reason : Text)
    → ((classify_error cmssw_exit_code job_exit_code error_message log_tail reason).category
        ≡ success)
      ↔ ((is_code cmssw_exit_code 0 ≡ true)
          × (is_code job_exit_code 0 ≡ true)
          × (is_zombie reason ≡ false)
          × (is_hard_wall_time reason ≡ false))
unfolding classify_error
classify_error-success_iff cmssw_exit_code job_exit_code error_message log_tail reason =
    ground arith
