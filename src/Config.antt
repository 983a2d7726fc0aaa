-- ===== src/Config.antt =====
-- src/condora/config.py: the settings that the modelled code reads. Fractions are in percent.
use condora.Base.{ℕ}

pub record Settings : Type 0 where
  pub max_active_dags : ℕ
  pub max_concurrent_rounds : ℕ
  pub timeout_submitted : ℕ
  pub timeout_queued : ℕ
  pub timeout_pilot_running : ℕ
  pub timeout_planning : ℕ
  pub timeout_active : ℕ
  pub timeout_stopping : ℕ
  pub timeout_resubmitting : ℕ
  pub error_hold_threshold : ℕ
  pub error_max_rescue_attempts : ℕ
  pub site_ban_duration_days : ℕ
  pub site_ban_promotion_threshold : ℕ

-- The defaults.
abbrev pub default_settings : Settings
default_settings = record {
  max_active_dags = 300;
  max_concurrent_rounds = 3;
  timeout_submitted = 3600;
  timeout_queued = 604800;
  timeout_pilot_running = 86400;
  timeout_planning = 3600;
  timeout_active = 2592000;
  timeout_stopping = 3600;
  timeout_resubmitting = 600;
  error_hold_threshold = 20;
  error_max_rescue_attempts = 3;
  site_ban_duration_days = 7;
  site_ban_promotion_threshold = 3;
}
