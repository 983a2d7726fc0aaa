-- ===== src/Output/Invalidation.antt =====
-- `invalidate_blocks` takes every block of a workflow back, whatever Rucio and DBS answer.
use mathlib.Core.List.{map-append, append-nil, append_assoc, flatten}
use mathlib.Core.Path.{subst}
use condora.Base.{
  ℕ, String, Option, none, some, if◌then◌else◌, Bool, true, false, List, [], ◌∷◌, ◌++◌, map, ◌≡◌,
  refl, sym, ap, ◌∙◌, inl, inr, ◌==◌, ◌||◌, not, nat_eq, any, All, select, Bool-cases, arith,
}
use condora.Base.Paths.{is_blank}
use condora.Base.Dict.{values}
use condora.Services.{delete_rule, invalidate_block, DataServices, DataCall, Reply-cases}
use condora.Enums.{BlockStatus}
use condora.Rows.{BlockRow}
use condora.Repository.{update_where, update_processing_block, get_processing_blocks}
use condora.Effects.{State, return, send, done, ◌>>◌, try_quietly, for_each}
use condora.Output.Rucio.{set_block}
use condora.Output.Cycle.{
  one_if_given, invalidated_row, cleanup_calls, invalidate_row, invalidate_blocks,
}

abbrev told : List DataCall → State → State
told calls s = record s { data_calls = s.data_calls ++ calls }

-- The calls are made in their order, and none stops the next one.
send_all_quietly :
    (services : DataServices) (calls : List DataCall) (s : State)
    → for_each calls (λ call. try_quietly (send services call >> done)) s
      ≡ (return tt, told calls s)
unfolding for_each send
send_all_quietly services [] s =
    ap (λ calls. (return tt, record s { data_calls = calls })) (sym (append-nil s.data_calls))
send_all_quietly services (call ∷ calls) s =
    let rest =
      send_all_quietly services calls (told (call ∷ []) s)
      ∙ ap (λ all_calls. (return tt, record s { data_calls = all_calls }))
          (append_assoc s.data_calls (call ∷ []) calls) in
    elim (Reply-cases (services s.data_calls call)) [
      | inl (text, said) ↦ rw (said) rest
      | inr (text, said) ↦ rw (said) rest
    ]

-- The rules that a block records, and the block of DBS where it is still open there.
abbrev pub given : Option String → List String
given none = []
given (some s) = if is_blank s then [] else s ∷ []

abbrev pub recorded_rules : BlockRow → List String
recorded_rules b =
    values b.source_rule_ids ++ (given b.tape_rule_id ++ given b.consolidation_rule_id)

abbrev pub open_in_dbs : BlockRow → List String
open_in_dbs b = if b.dbs_block_open then given b.dbs_block_name else []

abbrev pub take_back : BlockRow → List DataCall
take_back b = map delete_rule (recorded_rules b) ++ map invalidate_block (open_in_dbs b)

one_if_given-given :
    (call : String → DataCall) (o : Option String) → one_if_given call o ≡ map call (given o)
one_if_given-given call none = refl
one_if_given-given call (some s) =
    elim (is_blank s)
      as (λ blank.
        (elim (if blank then none else some s) as (λ _. List DataCall) [
          | none ↦ []
          | some t ↦ call t ∷ []
        ])
        ≡ map call (if blank then [] else s ∷ [])) [ true ↦ refl | false ↦ refl ]

four_parts : (a b c d : List DataCall) → a ++ (b ++ (c ++ d)) ≡ (a ++ (b ++ c)) ++ d
four_parts a b c d = sym (append_assoc a (b ++ c) d ∙ ap (λ rest. a ++ rest) (append_assoc b c d))

open_in_dbs-calls :
    (b : BlockRow)
    → (if b.dbs_block_open then one_if_given invalidate_block b.dbs_block_name else [])
      ≡ map invalidate_block (open_in_dbs b)
open_in_dbs-calls b = elim (Bool-cases b.dbs_block_open) [
  | inl still ↦ rw still (one_if_given-given invalidate_block b.dbs_block_name)
  | inr closed ↦ rw closed
]

cleanup_calls-take_back : (b : BlockRow) → cleanup_calls b ≡ take_back b
unfolding cleanup_calls
cleanup_calls-take_back b =
    let sources = values b.source_rule_ids in
    let tape = given b.tape_rule_id in
    let consolidation = given b.consolidation_rule_id in
    rw
      (
        one_if_given-given delete_rule b.tape_rule_id,
        one_if_given-given delete_rule b.consolidation_rule_id,
        open_in_dbs-calls b,
        map-append delete_rule sources (tape ++ consolidation),
        map-append delete_rule tape consolidation,
      )
      (four_parts (map delete_rule sources) (map delete_rule tape) (map delete_rule consolidation)
        (map invalidate_block (open_in_dbs b)))

map-take_back : (bs : List BlockRow) → map cleanup_calls bs ≡ map take_back bs
map-take_back [] = refl
map-take_back (b ∷ bs) = rw (cleanup_calls-take_back b, map-take_back bs) refl

-- The state after one block, and after some.
abbrev step : BlockRow → State → State
step b s = record (told (cleanup_calls b) s) {
  db = update_processing_block b.id invalidated_row s.db;
}

steps : List BlockRow → State → State
steps [] s = s
steps (b ∷ bs) s = steps bs (step b s)

invalidate_row-step :
    (services : DataServices) (b : BlockRow) (s : State)
    → invalidate_row services b s ≡ (return tt, step b s)
unfolding invalidate_row set_block
invalidate_row-step services b s = rw (send_all_quietly services (cleanup_calls b) s) refl

for_each-steps :
    (services : DataServices) (bs : List BlockRow) (s : State)
    → for_each bs (invalidate_row services) s ≡ (return tt, steps bs s)
unfolding for_each steps
for_each-steps services [] s = refl
for_each-steps services (b ∷ bs) s =
    rw (invalidate_row-step services b s) (for_each-steps services bs (step b s))

data_calls-steps :
    (bs : List BlockRow) (s : State)
    → (steps bs s).data_calls ≡ s.data_calls ++ flatten (map cleanup_calls bs)
unfolding steps flatten
data_calls-steps [] s = sym (append-nil s.data_calls)
data_calls-steps (b ∷ bs) s =
    data_calls-steps bs (step b s)
    ∙ append_assoc s.data_calls (cleanup_calls b) (flatten (map cleanup_calls bs))

abbrev pub is_invalidated : BlockStatus → Bool
is_invalidated BlockStatus.invalidated = true
is_invalidated _ = false

-- A row is invalidated, or another workflow's, or still to come.
abbrev IsCovered : ℕ → List BlockRow → BlockRow → Type 0
IsCovered w bs b =
    (is_invalidated b.status || (not (b.workflow_id == w) || any (λ c. b.id == c.id) bs)) ≡ true

update-IsCovered :
    (w : ℕ) (c : BlockRow) (bs rows : List BlockRow)
    → All (IsCovered w (c ∷ bs)) rows
    → All (IsCovered w bs) (update_where (λ b. b.id == c.id) invalidated_row rows)
unfolding update_where
update-IsCovered w c bs [] ok = ok
update-IsCovered w c bs (b ∷ rows) (first, rest) = (
  elim (Bool-cases (b.id == c.id)) [
    | inl own ↦ rw (own) refl
    | inr other ↦ rw (other) (rw (other) at first)
  ],
  update-IsCovered w c bs rows rest,
)

weaken-IsCovered :
    (w : ℕ) (c : BlockRow) (bs rows : List BlockRow)
    → All (IsCovered w bs) rows
    → All (IsCovered w (c ∷ bs)) rows
weaken-IsCovered w c bs [] ok = ok
weaken-IsCovered w c bs (b ∷ rows) (first, rest) =
    (ground (arith, first), weaken-IsCovered w c bs rows rest)

abbrev of_workflow : ℕ → BlockRow → Bool
of_workflow w b = b.workflow_id == w

All-IsCovered :
    (w : ℕ) (rows : List BlockRow) → All (IsCovered w (select (of_workflow w) rows)) rows
All-IsCovered w [] = tt
All-IsCovered w (b ∷ rows) = elim (Bool-cases (of_workflow w b)) [
  | inl own ↦
      subst (λ bs. All (IsCovered w bs) (b ∷ rows)) (sym (chosen own))
        (
          ground arith,
          weaken-IsCovered w b (select (of_workflow w) rows) rows (All-IsCovered w rows),
        )
  | inr other ↦
      subst (λ bs. All (IsCovered w bs) (b ∷ rows)) (sym (passed other))
        (ground (arith, other), All-IsCovered w rows)
]
  where
    chosen :
        of_workflow w b ≡ true → select (of_workflow w) (b ∷ rows) ≡ b ∷ select (of_workflow w) rows
    chosen own = rw (own) refl

    passed :
        of_workflow w b ≡ false → select (of_workflow w) (b ∷ rows) ≡ select (of_workflow w) rows
    passed other = rw (other) refl

steps-IsCovered :
    (w : ℕ) (bs : List BlockRow) (s : State)
    → All (IsCovered w bs) s.db.blocks
    → All (IsCovered w []) (steps bs s).db.blocks
unfolding steps update_processing_block
steps-IsCovered w [] s ok = ok
steps-IsCovered w (b ∷ bs) s ok =
    steps-IsCovered w bs (step b s) (update-IsCovered w b bs s.db.blocks ok)

covered-invalidated :
    (w : ℕ) (rows : List BlockRow)
    → All (IsCovered w []) rows
    → All (λ b. is_invalidated b.status ≡ true) (select (of_workflow w) rows)
covered-invalidated w [] ok = ok
covered-invalidated w (b ∷ rows) (first, rest) = elim (Bool-cases (b.workflow_id == w)) [
  | inl own ↦ rw (own) (ground (arith, first), covered-invalidated w rows rest)
  | inr other ↦ rw (other) (covered-invalidated w rows rest)
]

-- The call never raises. Whatever Rucio and DBS answer, it asks, block by block, for the removal of
-- every recorded source rule, of the tape rule and of the consolidation rule, and then for the
-- invalidation of the block in DBS where it is open there, and for nothing else; and afterwards every block of the workflow is invalidated.
pub invalidate_blocks-invalidates :
    (services : DataServices) (w : ℕ) (s : State)
    → let after = invalidate_blocks services w s in
      (after.0 ≡ return tt)
      × ((after.1.data_calls
            ≡ s.data_calls ++ flatten (map take_back (get_processing_blocks w s.db)))
          × All (λ b. is_invalidated b.status ≡ true) (get_processing_blocks w after.1.db))
unfolding invalidate_blocks get_processing_blocks
invalidate_blocks-invalidates services w s =
    let bs = select (of_workflow w) s.db.blocks in
    rw (for_each-steps services bs s) (
      refl,
      (
        data_calls-steps bs s ∙ ap (λ calls. s.data_calls ++ flatten calls) (map-take_back bs),
        covered-invalidated w (steps bs s).db.blocks
            (steps-IsCovered w bs s (All-IsCovered w s.db.blocks)),
      ),
    )
