-- ===== src/Output.antt =====
-- src/condora/core/output_manager.py: when a failed call of Rucio for an output block is tried again.
-- Moments are in seconds.
pub mod Retry
pub mod Rucio
pub mod Blocks
pub mod Cycle
pub mod Rules
pub mod Operations
pub mod Cycles
pub mod Soundness
pub mod Progress
pub mod Invalidation
pub mod Archival
mod Examples
use condora.Base.{
  ℕ, zero, suc, String, Bool, true, false, List, [], ◌∷◌, Option, none, some, ◌+◌, ◌-◌, min, ltb,
  length, is_empty, all, if◌then◌else◌,
}
use condora.Enums.{BlockStatus}
use condora.Rows.{BlockRow}
use condora.Repository.{Db, get_processing_blocks, update_processing_block}

-- `RUCIO_MAX_RETRY_DURATION`: three days.
abbrev pub max_retry_duration : ℕ
max_retry_duration = 259200

-- `RUCIO_BACKOFF_SCHEDULE`
abbrev pub backoff_schedule : List ℕ
backoff_schedule = 60 ∷ 300 ∷ 1800 ∷ 7200 ∷ 14400 ∷ 28800 ∷ []

-- An index of the list; the program asks for no other.
abbrev pub entry : ℕ → List ℕ → ℕ
entry n [] = 0
entry zero (x ∷ xs) = x
entry (suc n) (x ∷ xs) = entry n xs

unfoldable pub backoff : ℕ → ℕ
backoff attempt_count = entry (min attempt_count (length backoff_schedule - 1)) backoff_schedule

unfoldable pub should_retry : ℕ → BlockRow → Bool
unfolding backoff
should_retry now b = elim b.last_rucio_attempt [
  | none ↦ true
  | some last_attempt ↦
      if ltb max_retry_duration (now - b.created_at)
      then false
      else if ltb (now - last_attempt) (backoff b.rucio_attempt_count)
      then false
      else true
]

-- The columns that a failure sets, from the number of attempts before it.
abbrev pub failed_attempt : ℕ → String → ℕ → BlockRow → BlockRow
failed_attempt now error attempt_count b = record b {
  last_rucio_attempt = some now;
  rucio_attempt_count = attempt_count + 1;
  rucio_last_error = some error;
}

abbrev pub is_archived : BlockStatus → Bool
is_archived BlockStatus.archived = true
is_archived _ = false

unfoldable pub all_blocks_archived : ℕ → Db → Bool
unfolding get_processing_blocks
all_blocks_archived workflow_id db =
    let blocks = get_processing_blocks workflow_id db in
    if is_empty blocks then true else all (λ b. is_archived b.status) blocks
