-- ===== src/Output/Soundness.antt =====
-- What the columns of a block say about Rucio, after every operation of the manager.
use condora.Base.{
  ℕ, String, Bool, true, false, List, [], ◌∷◌, Option, none, some, ◌≡◌, refl, ◌==◌, ◌&&◌, ◌||◌, not,
  nat_eq, string_eq, All, Bool-cases, inl, inr, arith,
}
use condora.Rows.{BlockRow}
use condora.Repository.{update_where, update_processing_block, get_processing_block}
use condora.Effects.{State, M, send, try_quietly, for_each}
use condora.Effects.Maintains.{Maintains, for_each-Maintains}
use condora.Output.Rules.{Rules}
use condora.Output.Operations.{handle_unit-Maintains}
use condora.Output.Cycles.{process_blocks_for_workflow-Maintains, invalidate_blocks-Maintains}
use condora.Output.{is_archived, failed_attempt}
use condora.Output.Rucio.{OutputManager, Stageout, set_block, remember}
use condora.Output.Cycle.{invalidated_row, process_blocks_for_workflow, invalidate_blocks}
use condora.Output.Blocks.{
  MergeInfo, handle_work_unit_completion, record_unit, opened_as, with_rule, settled, completed_row,
  archived_by, consolidated_by, reconsolidated_by,
}

abbrev pub is_absent : Option String → Bool
is_absent none = true
is_absent (some s) = false

abbrev pub agree : Bool → Bool → Bool
agree true b = b
agree false b = not b

-- An archived block has its tape rule, and an error is noted just where attempts are counted.
unfoldable pub is_sound : BlockRow → Bool
is_sound b =
    (not (is_archived b.status) || not (is_absent b.tape_rule_id))
    && agree (is_absent b.rucio_last_error) (b.rucio_attempt_count == 0)

abbrev pub IsSound : State → Type 0
IsSound s = All (λ b. is_sound b ≡ true) s.db.blocks

abbrev pub Keeps : (BlockRow → BlockRow) → Type 0
Keeps values = (b : BlockRow) → is_sound b ≡ true → is_sound (values b) ≡ true

update_where-All :
    (p : BlockRow → Bool) (values : BlockRow → BlockRow) (rows : List BlockRow)
    → Keeps values
    → All (λ b. is_sound b ≡ true) rows
    → All (λ b. is_sound b ≡ true) (update_where p values rows)
unfolding update_where
update_where-All p values [] h ok = ok
update_where-All p values (b ∷ rows) h (first, rest) = (
  elim (Bool-cases (p b)) [ inl hit ↦ rw (hit) (h b first) | inr miss ↦ rw (miss) first ],
  update_where-All p values rows h rest,
)

set_block-Maintains :
    (block : BlockRow) (values : BlockRow → BlockRow)
    → Keeps values
    → Maintains IsSound (set_block block values)
unfolding set_block update_processing_block
set_block-Maintains block values h s ok =
    update_where-All (λ b. b.id == block.id) values s.db.blocks h ok

settled-Keeps : Keeps settled
unfolding is_sound
settled-Keeps b ok = ground arith

failed_attempt-Keeps :
    (now : ℕ) (error : String) (attempts : ℕ) → Keeps (failed_attempt now error attempts)
unfolding is_sound
failed_attempt-Keeps now error attempts b ok = ground arith

archived_by-Keeps : (rule : String) → Keeps (archived_by rule)
unfolding is_sound
archived_by-Keeps rule b ok = refl

complete-Keeps : Keeps completed_row
unfolding is_sound
complete-Keeps b ok = ground arith

invalidated-Keeps : Keeps invalidated_row
unfolding is_sound
invalidated-Keeps b ok = ground arith

IsSound-rules : Rules IsSound
IsSound-rules = record {
  sends = λ services call s ok. unfold send in ok;
  remembers = λ block rse s ok. unfold remember in ok;
  fails = λ block now error attempts.
      set_block-Maintains block (failed_attempt now error attempts)
        (failed_attempt-Keeps now error attempts);
  archives = λ block rule. set_block-Maintains block (archived_by rule) (archived_by-Keeps rule);
  consolidates = λ block rule.
      set_block-Maintains block (consolidated_by rule) (unfold is_sound in λ b ok. ok);
  reconsolidates = λ block rule.
      set_block-Maintains block (reconsolidated_by rule)
        (λ b ok. settled-Keeps (consolidated_by rule b) (unfold is_sound in ok));
  settles = λ block. set_block-Maintains block settled settled-Keeps;
  completes = λ block. set_block-Maintains block completed_row complete-Keeps;
  opens = λ block name. set_block-Maintains block (opened_as name) (unfold is_sound in λ b ok. ok);
  protects = λ block rule_ids.
      set_block-Maintains block (with_rule rule_ids) (unfold is_sound in λ b ok. ok);
  invalidates = λ block. set_block-Maintains block invalidated_row invalidated-Keeps;
}

record_unit-Maintains :
    (o : OutputManager) (info : MergeInfo) (block : BlockRow)
    → Maintains IsSound (record_unit o info block)
unfolding record_unit is_sound
record_unit-Maintains o info block = set_block-Maintains block _ (λ b ok. ok)

-- A call of the manager by the lifecycle manager.
pub data Operation : Type 0 where
  unit_completed : ℕ → MergeInfo → Operation
  cycle_passed : ℕ → Operation
  invalidated : ℕ → Operation

-- The state after it; what it raises is caught by the caller.
unfoldable pub apply : OutputManager × (Stageout × Operation) → M (Unit {0})
unfolding handle_work_unit_completion process_blocks_for_workflow invalidate_blocks
apply (o, (config, unit_completed block_id info)) =
    handle_work_unit_completion o config block_id info
apply (o, (config, cycle_passed workflow_id)) = process_blocks_for_workflow o config workflow_id
apply (o, (config, invalidated workflow_id)) = invalidate_blocks o.services workflow_id

unfoldable pub apply_all : List (OutputManager × (Stageout × Operation)) → M (Unit {0})
unfolding apply
apply_all operations = for_each operations (λ operation. try_quietly (apply operation))

apply-Maintains :
    (operation : OutputManager × (Stageout × Operation)) → Maintains IsSound (apply operation)
unfolding apply handle_work_unit_completion process_blocks_for_workflow invalidate_blocks
apply-Maintains (o, (config, unit_completed block_id info)) = λ s.
    handle_unit-Maintains IsSound-rules o config (record_unit-Maintains o) info
      (get_processing_block block_id s.db) s
apply-Maintains (o, (config, cycle_passed workflow_id)) =
    process_blocks_for_workflow-Maintains IsSound-rules o config workflow_id
apply-Maintains (o, (config, invalidated workflow_id)) =
    invalidate_blocks-Maintains IsSound-rules o.services workflow_id

-- Whatever operations run one after the other, each with its own settings, clock and answers of the
-- services, and whatever they raise: if at first every archived block has a tape rule and a block
-- has an error noted exactly where it counts attempts, then so it is afterwards.
pub apply_all-IsSound :
    (operations : List (OutputManager × (Stageout × Operation))) (s : State)
    → IsSound s
    → IsSound (apply_all operations s).1
unfolding apply_all
apply_all-IsSound operations =
    for_each-Maintains IsSound operations _ (λ operation s ok. apply-Maintains operation s ok)
