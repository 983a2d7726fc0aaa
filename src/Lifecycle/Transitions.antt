-- ===== src/Lifecycle/Transitions.antt =====
-- `transition`, the timeouts, and the production target of `RequestLifecycleManager`.
use condora.Base.{
  ℕ, String, Bool, [], ◌∷◌, ◌++◌, Option, none, some, ◌-◌, ◌||◌, ltb, leb, nat_beq, if◌then◌else◌,
}
use condora.Enums.{RequestStatus}
use condora.Rows.{RequestRow, WorkflowRow}
use condora.Config.{Settings}
use condora.Repository.{update_request}
use condora.Effects.{M, update}

-- The columns that a transition sets.
abbrev pub moved : ℕ → RequestStatus → RequestRow → RequestRow
moved now new_status r = record r {
  status = new_status;
  status_transitions =
      r.status_transitions ++ record { from = r.status; to = new_status; timestamp = now } ∷ [];
}

unfoldable pub transition : ℕ → String → RequestStatus → M (Unit {0})
transition now request_name new_status =
    update (update_request now request_name (moved now new_status))

-- `self.status_timeouts`
unfoldable pub status_timeout : Settings → RequestStatus → Option ℕ
status_timeout settings RequestStatus.submitted = some settings.timeout_submitted
status_timeout settings RequestStatus.queued = some settings.timeout_queued
status_timeout settings RequestStatus.pilot_running = some settings.timeout_pilot_running
status_timeout settings RequestStatus.planning = some settings.timeout_planning
status_timeout settings RequestStatus.active = some settings.timeout_active
status_timeout settings RequestStatus.stopping = some settings.timeout_stopping
status_timeout settings RequestStatus.resubmitting = some settings.timeout_resubmitting
status_timeout settings RequestStatus.paused = some settings.timeout_active
status_timeout settings _ = none

-- A moment before the last update has not elapsed any time.
unfoldable pub is_stuck : Settings → ℕ → RequestRow → Bool
unfolding status_timeout
is_stuck settings now r = elim (status_timeout settings r.status) [
  | none ↦ Bool.false
  | some timeout ↦ ltb timeout (now - r.updated_at)
]

unfoldable pub target_reached : WorkflowRow → Bool
target_reached w =
    if w.is_gen
    then nat_beq w.target_events 0 || leb w.target_events w.events_produced
    else nat_beq w.total_input_files 0 || leb w.total_input_files w.files_processed
