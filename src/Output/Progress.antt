-- ===== src/Output/Progress.antt =====
-- Which work units are recorded as finished.
use condora.Base.{
  ℕ, String, Bool, true, List, [], ◌∷◌, ◌++◌, map, some, ◌≡◌, ◌⊎◌, inl, inr, refl, ◌∙◌, ap, ◌==◌,
  nat_eq, is_empty, Bool-cases, if◌then◌else◌,
}
use condora.Rows.{BlockRow}
use condora.Services.{Reply-cases, open_block, register_files}
use condora.Repository.{update_where, update_processing_block, get_processing_block}
use condora.Effects.{State, Result, return, raise, service_error, send, ◌>>=◌, ◌>>◌}
use condora.Effects.Maintains.{Maintains}
use condora.Output.Rucio.{OutputManager, Stageout, set_block, remember}
use condora.Output.Blocks.{
  MergeInfo, open_dbs_block, register_in_dbs, record_unit, place_unit, handle_unit,
  handle_work_unit_completion, recorded_by, opened_as,
}
use condora.Output.Rules.{Rules}
use condora.Output.Operations.{
  open_dbs_block-Maintains, register_in_dbs-Maintains, place_unit-Maintains,
}

abbrev pub Progress : Type 0
Progress = ℕ × List String

abbrev pub progress_of : BlockRow → Progress
progress_of b = (b.id, b.completed_work_units)

abbrev pub progress : State → List Progress
progress s = map progress_of s.db.blocks

-- The entry of the block, with these units.
abbrev pub with_units : ℕ → List String → Progress → Progress
with_units block_id units p = if p.0 == block_id then (p.0, units) else p

map-update_where :
    (p : BlockRow → Bool) (values : BlockRow → BlockRow) (rows : List BlockRow)
    → ((b : BlockRow) → progress_of (values b) ≡ progress_of b)
    → map progress_of (update_where p values rows) ≡ map progress_of rows
unfolding update_where
map-update_where p values [] same = refl
map-update_where p values (b ∷ rows) same = elim (Bool-cases (p b)) [
  | inl hit ↦ rw (map-update_where p values rows same, hit, same b) refl
  | inr miss ↦ rw (map-update_where p values rows same, miss) refl
]

set_block-keeps :
    (before : List Progress) (block : BlockRow) (values : BlockRow → BlockRow)
    → ((b : BlockRow) → progress_of (values b) ≡ progress_of b)
    → Maintains (λ s. progress s ≡ before) (set_block block values)
unfolding set_block update_processing_block
set_block-keeps before block values same s ok =
    map-update_where (λ b. b.id == block.id) values s.db.blocks same ∙ ok

progress_rules : (before : List Progress) → Rules (λ s. progress s ≡ before)
progress_rules before = record {
  sends = λ services call s ok. unfold send in ok;
  remembers = λ block rse s ok. unfold remember in ok;
  fails = λ block now error attempts. set_block-keeps before block _ (λ b. refl);
  archives = λ block rule. set_block-keeps before block _ (λ b. refl);
  consolidates = λ block rule. set_block-keeps before block _ (λ b. refl);
  reconsolidates = λ block rule. set_block-keeps before block _ (λ b. refl);
  settles = λ block. set_block-keeps before block _ (λ b. refl);
  completes = λ block. set_block-keeps before block _ (λ b. refl);
  opens = λ block name. set_block-keeps before block _ (λ b. refl);
  protects = λ block rule_ids. set_block-keeps before block _ (λ b. refl);
  invalidates = λ block. set_block-keeps before block _ (λ b. refl);
}

record_unit-map :
    (o : OutputManager) (info : MergeInfo) (block : BlockRow) (rows : List BlockRow)
    → map progress_of (update_where (λ b. b.id == block.id) (recorded_by info block) rows)
      ≡ map
          (with_units block.id (block.completed_work_units ++ info.node_name ∷ []))
          (map progress_of rows)
unfolding update_where
record_unit-map o info block [] = refl
record_unit-map o info block (b ∷ rows) = elim (Bool-cases (b.id == block.id)) [
  | inl own ↦ rw (record_unit-map o info block rows, own) refl
  | inr other ↦ rw (record_unit-map o info block rows, other) refl
]

-- DBS raised.
abbrev pub IsDbsError : {A : Type 0} → Result A → Type 0
IsDbsError r = (text : String) × (r ≡ raise (service_error text))

open_dbs_block-cases :
    (o : OutputManager) (info : MergeInfo) (b : BlockRow) (s : State)
    → ((b' : BlockRow) × (((open_dbs_block o info b s).0 ≡ return b')
          × (progress_of b' ≡ progress_of b)))
      ⊎ IsDbsError (open_dbs_block o info b s).0
unfolding open_dbs_block set_block
open_dbs_block-cases o info b s = elim (Bool-cases b.dbs_block_open) [
  | inl is_open ↦ rw (is_open) (inl (record b { dbs_block_open = true }, (refl, refl)))
  | inr shut ↦
      rw (shut)
        (elim (Reply-cases
          (o.services s.data_calls (open_block b.dataset_name b.block_index info.site))) [
            | inl (name, said) ↦ rw (said) (inl (opened_as name b, (refl, refl)))
            | inr (text, said) ↦ rw (said) (inr (text, refl))
          ])
]

register_in_dbs-cases :
    (o : OutputManager) (info : MergeInfo) (b : BlockRow) (s : State)
    → ((register_in_dbs o info b s).0 ≡ return tt) ⊎ IsDbsError (register_in_dbs o info b s).0
unfolding register_in_dbs
register_in_dbs-cases o info b s = elim (Bool-cases (is_empty info.output_files)) [
  | inl none' ↦ rw (none') (inl refl)
  | inr some' ↦
      rw (some')
        (elim (Reply-cases
          (o.services s.data_calls (register_files b.dbs_block_name info.output_files))) [
            | inl (name, said) ↦ rw (said) (inl refl)
            | inr (text, said) ↦ rw (said) (inr (text, refl))
          ])
]

record_then_place :
    (o : OutputManager) (config : Stageout) (info : MergeInfo) (b : BlockRow) (s : State)
    → progress ((record_unit o info b >>= place_unit o config info) s).1
      ≡ map (with_units b.id (b.completed_work_units ++ info.node_name ∷ [])) (progress s)
unfolding record_unit set_block update_processing_block
record_then_place o config info b s =
    place_unit-Maintains
      (progress_rules
        (map (with_units b.id (b.completed_work_units ++ info.node_name ∷ [])) (progress s)))
      o config info (recorded_by info b b) _ (record_unit-map o info b s.db.blocks)

-- What a finished work unit leaves behind.
abbrev pub IsRecorded : MergeInfo → BlockRow → Result (Unit {0}) × State → State → Type 0
IsRecorded info b after s =
    (progress after.1
      ≡ map (with_units b.id (b.completed_work_units ++ info.node_name ∷ [])) (progress s))
    ⊎ ((progress after.1 ≡ progress s) × IsDbsError after.0)

after_register :
    (o : OutputManager) (config : Stageout) (info : MergeInfo) (b : BlockRow) (s : State)
    → IsRecorded info b
        ((register_in_dbs o info b >> (record_unit o info b >>= place_unit o config info)) s)
        s
after_register o config info b s =
    let s' = (register_in_dbs o info b s).1 in
    let same : progress s' ≡ progress s =
      register_in_dbs-Maintains (progress_rules (progress s)) o config info b s refl in
    elim (register_in_dbs-cases o info b s) [
      | inl went ↦ rw (went) (
          inl (
            record_then_place o config info b s'
            ∙ ap (map (with_units b.id (b.completed_work_units ++ info.node_name ∷ []))) same))
      | inr (text, broke) ↦ rw (broke) (inr (same, (text, refl)))
    ]

-- The block as it was loaded, and the state, may be replaced by others with the same progress.
IsRecorded-alike :
    (info : MergeInfo) (b b' : BlockRow) (after : Result (Unit {0}) × State) (s s' : State)
    → progress_of b' ≡ progress_of b
    → progress s' ≡ progress s
    → IsRecorded info b' after s'
    → IsRecorded info b after s
IsRecorded-alike info b b' after s s' alike same r =
    let put : Progress → List Progress → List Progress =
      λ e. map (with_units e.0 (e.1 ++ info.node_name ∷ [])) in
    elim r [
      | inl went ↦ inl (went ∙ ap (λ e. put e (progress s')) alike ∙ ap (put (progress_of b)) same)
      | inr (kept, broke) ↦ inr (kept ∙ same, broke)
    ]

-- A block that is found has the work unit among its finished ones after the call, whatever Rucio
-- answers and whatever the call raises; or DBS raised, the call raises what DBS raised, and no
-- block's finished work units changed.
pub handle_work_unit_completion-IsRecorded :
    (o : OutputManager) (config : Stageout) (block_id : ℕ) (info : MergeInfo) (b : BlockRow)
    (s : State)
    → get_processing_block block_id s.db ≡ some b
    → IsRecorded info b (handle_work_unit_completion o config block_id info s) s
unfolding handle_work_unit_completion handle_unit
handle_work_unit_completion-IsRecorded o config block_id info b s found =
    let s' = (open_dbs_block o info b s).1 in
    let same : progress s' ≡ progress s =
      open_dbs_block-Maintains (progress_rules (progress s)) o config info b s refl in
    rw (found) (elim (open_dbs_block-cases o info b s) [
      | inl (b', (went, alike)) ↦
          let rest =
            register_in_dbs o info b' >> (record_unit o info b' >>= place_unit o config info) in
          rw (went) (
            IsRecorded-alike info b b' (rest s') s s' alike same
              (after_register o config info b' s'))
      | inr (text, broke) ↦ rw (broke) (inr (same, (text, refl)))
    ])
