-- ===== src/Output/Archival.antt =====
-- The tape rule of a complete block: one attempt of `_retry_tape_archival`.
use condora.Enums.{BlockStatus}
use condora.Base.{
  ℕ, String, true, false, Option-cases, none, some, ltb, ◌+◌, ◌-◌, ◌≤◌, ◌<◌, arith, [], ◌∷◌, ◌++◌,
  ◌≡◌, refl, ◌⊎◌, inl, inr, Bool-cases,
}
use condora.Services.{create_rule, DataCall, replied, failed, Reply-cases}
use condora.Rows.{BlockRow}
use condora.Repository.{update_processing_block}
use condora.Effects.{State, Result, return, raise, registration_error, send}
use condora.Output.{backoff, should_retry}
use condora.Output.Rucio.{OutputManager, Stageout, set_block}
use condora.Output.Blocks.{archive_block, fail_attempt}
use condora.Output.Cycle.{retry_tape_archival}

abbrev pub tape_call : BlockRow → DataCall
tape_call block = create_rule block.dataset_name "tier=1&type=TAPE" "cms"

-- The state after the call and an update of the block.
abbrev pub asked : BlockRow → (BlockRow → BlockRow) → State → State
asked block values s = record s {
  db = update_processing_block block.id values s.db;
  data_calls = s.data_calls ++ tape_call block ∷ [];
}

-- Whether the tape rule may be asked for: it never failed, or the backoff has passed since it did and
-- the block is at most three days old.
abbrev pub IsDue : ℕ → BlockRow → Type 0
IsDue now b =
    (b.last_rucio_attempt ≡ none)
    ⊎ ((last : ℕ) × ((b.last_rucio_attempt ≡ some last)
          × ((now ≤ b.created_at + 259200) × (backoff b.rucio_attempt_count ≤ now - last))))

abbrev pub IsEarly : ℕ → BlockRow → Type 0
IsEarly now b =
    (last : ℕ) × ((b.last_rucio_attempt ≡ some last)
      × ((b.created_at + 259200 < now) ⊎ (now - last < backoff b.rucio_attempt_count)))

should_retry-cases :
    (now : ℕ) (b : BlockRow)
    → ((should_retry now b ≡ true) × IsDue now b) ⊎ ((should_retry now b ≡ false) × IsEarly now b)
unfolding should_retry
should_retry-cases now b = elim (Option-cases b.last_rucio_attempt) [
  | inl never ↦ rw never (inl (refl, inl refl))
  | inr (last, failed_at) ↦ rw failed_at (elim (Bool-cases (ltb 259200 (now - b.created_at))) [
    | inl old ↦ rw old (inr (refl, (last, (refl, inl (ground (arith, old))))))
    | inr young ↦ rw young (elim (Bool-cases (ltb (now - last) (backoff b.rucio_attempt_count))) [
      | inl soon ↦ rw soon (inr (refl, (last, (refl, inr (ground (arith, soon))))))
      | inr late ↦
          rw late (inl (refl, inr (last, (refl, (ground (arith, young), ground (arith, late))))))
    ])
  ])
]

-- The block under its tape rule, and the block after one more failure.
abbrev pub archived_row : String → BlockRow → BlockRow
archived_row rule b = record b {
  tape_rule_id = some rule;
  status = BlockStatus.archived;
  rucio_last_error = none;
  rucio_attempt_count = 0;
}

abbrev pub failed_row : ℕ → String → ℕ → BlockRow → BlockRow
failed_row now text attempts b = record b {
  last_rucio_attempt = some now;
  rucio_attempt_count = attempts + 1;
  rucio_last_error = some text;
}

abbrev pub IsTapeOutcome : OutputManager → BlockRow → State → Result BlockRow × State → Type 0
IsTapeOutcome o block s after =
    (IsEarly o.now block × (after ≡ (return block, s)))
    ⊎ (IsDue o.now block
        × (((rule : String) × ((o.services s.data_calls (tape_call block) ≡ replied rule)
                × (after ≡ (return (archived_row rule block), asked block (archived_row rule) s))))
            ⊎ ((text : String) × ((o.services s.data_calls (tape_call block) ≡ failed text)
                  × (after ≡ (
                    raise (registration_error text),
                    asked block (failed_row o.now text block.rucio_attempt_count) s,
                  ))))))

-- Before the backoff of the last failure has passed, or three days after the block was created, the
-- retry does nothing. Otherwise it asks Rucio once: with a rule the block is archived under it, its
-- error is cleared and its attempts start at 0 again; with an error the block keeps its status, one
-- more attempt is counted at this moment with that error, and the retry raises
-- `RucioRegistrationError`.
pub retry_tape_archival-IsTapeOutcome :
    (o : OutputManager) (config : Stageout) (block : BlockRow) (s : State)
    → IsTapeOutcome o block s (retry_tape_archival o config block s)
unfolding retry_tape_archival archive_block send set_block fail_attempt
retry_tape_archival-IsTapeOutcome o config block s = elim (should_retry-cases o.now block) [
  | inr (early, why) ↦ rw (early) (inl (why, refl))
  | inl (due, why) ↦ rw (due) (elim (Reply-cases (o.services s.data_calls (tape_call block))) [
    | inl (rule, said) ↦ rw (said) (inr (why, inl (rule, (refl, refl))))
    | inr (text, said) ↦ rw (said) (inr (why, inr (text, (refl, refl))))
  ])
]
