-- ===== src/ErrorHandler/RescueChain.antt =====
-- The chain of rescues behind a DAG.
use condora.Base.{
  ℕ, zero, suc, String, Bool, true, false, List, [], ◌∷◌, ◌++◌, Option, none, some, ◌≡◌, ◌+◌, ◌≤◌,
  ◌<◌, All, All-append, inl, inr, refl, sym, ap, arith, Option-cases, Bool-cases,
}
use condora.Rows.{DagRow}
use condora.Repository.{Db, is_dag, first_where, get_dag}
use condora.Lifecycle.Resubmit.{rescue_row, create_rescue}
use condora.ErrorHandler.{rescue_chain, count_rescue_chain}

abbrev pub IsOlder : ℕ → Option ℕ → Type 0
IsOlder id none = Unit
IsOlder id (some parent) = parent < id

-- An identifier below the next one, and a parent older than its child.
IsPlaced : ℕ → DagRow → Type 0
IsPlaced next_id d = (d.id < next_id) × IsOlder d.id d.parent_dag_id

-- The DAGs of a database whose identifiers grow.
unfoldable pub AreChained : Db → Type 0
unfolding IsPlaced
AreChained db = All (IsPlaced db.next_id) db.dags

some_inv : {A : Type 0} {a b : A} → some a ≡ some b → a ≡ b
some_inv {a = a} e = ap (λ o. elim o [ none ↦ a | some x ↦ x ]) e

-- What is found is an element, and passes the test.
first_where-All :
    (P : DagRow → Type 0) (p : DagRow → Bool) (ds : List DagRow)
    → All P ds
    → (d : DagRow) → first_where p ds ≡ some d
    → P d × (p d ≡ true)
unfolding first_where
first_where-All P p [] h d found = ground arith
first_where-All P p (x ∷ ds) h d found = elim (Bool-cases (p x)) [
  | inl met ↦
      let at_x : x ≡ d = some_inv (rw met at found) in (rw (sym at_x) h.0, rw (sym at_x) met)
  | inr unmet ↦ first_where-All P p ds h.1 d (rw unmet at found)
]

get_dag-IsPlaced :
    (db : Db)
    → AreChained db
    → (parent : ℕ) (d : DagRow) → get_dag parent db ≡ some d
    → IsPlaced db.next_id d × (d.id ≡ parent)
unfolding get_dag AreChained
get_dag-IsPlaced db h parent d found =
    let (placed, same) = first_where-All (IsPlaced db.next_id) (is_dag parent) db.dags h d found in
    (placed, ground arith)

pub root-rescue_chain :
    (db : Db) (fuel : ℕ) (d : DagRow) → d.parent_dag_id ≡ none → rescue_chain db fuel d ≡ 0
unfolding rescue_chain
root-rescue_chain db zero d root = refl
root-rescue_chain db (suc fuel) d root = rw root

pub child-rescue_chain :
    (db : Db) (fuel parent : ℕ) (d : DagRow)
    → d.parent_dag_id ≡ some parent
    → rescue_chain db (suc fuel) d
      ≡ (elim (get_dag parent db) [ none ↦ 1 | some current ↦ suc (rescue_chain db fuel current) ])
unfolding rescue_chain
child-rescue_chain db fuel parent d child = rw child

-- A DAG with a parent has no identifier 0.
no_child :
    (d : DagRow) (parent : ℕ)
    → IsOlder d.id d.parent_dag_id
    → d.parent_dag_id ≡ some parent
    → parent < d.id
no_child d parent older child = rw child at older

-- Any two amounts of fuel that reach the identifier count the same.
pub rescue_chain-fuel :
    (db : Db)
    → AreChained db
    → (a b : ℕ) (d : DagRow) → IsOlder d.id d.parent_dag_id
    → d.id ≤ a
    → d.id ≤ b
    → rescue_chain db a d ≡ rescue_chain db b d
unfolding rescue_chain IsPlaced
rescue_chain-fuel db h zero b d older enough enough' = elim (Option-cases d.parent_dag_id) [
  | inl root ↦ rw (root-rescue_chain db b d root)
  | inr (parent, child) ↦ ground (arith, no_child d parent older child)
]
rescue_chain-fuel db h (suc a) zero d older enough enough' = elim (Option-cases d.parent_dag_id) [
  | inl root ↦ rw (root-rescue_chain db (suc a) d root)
  | inr (parent, child) ↦ ground (arith, no_child d parent older child)
]
rescue_chain-fuel db h (suc a) (suc b) d older enough enough' =
    elim (Option-cases d.parent_dag_id) [
      | inl root ↦ rw root
      | inr (parent, child) ↦
          rw (child-rescue_chain db a parent d child, child-rescue_chain db b parent d child)
            (elim (Option-cases (get_dag parent db)) [
              | inl lost ↦ rw lost
              | inr (current, found) ↦
                  let (placed, same) = get_dag-IsPlaced db h parent current found in
                  let lt = no_child d parent older child in
                  rw (
                    found,
                    rescue_chain-fuel db h a b current placed.1 (omega (arith, lt, same))
                        (omega (arith, lt, same)),
                  )
            ])
    ]

other-first_where :
    (p : DagRow → Bool) (ds : List DagRow) (d : DagRow)
    → p d ≡ false
    → first_where p (ds ++ d ∷ []) ≡ first_where p ds
unfolding first_where
other-first_where p [] d other = rw other
other-first_where p (x ∷ ds) d other = rw (other-first_where p ds d other)

added-first_where :
    (p : DagRow → Bool) (ds : List DagRow) (d : DagRow)
    → p d ≡ true
    → first_where p ds ≡ none
    → first_where p (ds ++ d ∷ []) ≡ some d
unfolding first_where
added-first_where p [] d met absent = rw met
added-first_where p (x ∷ ds) d met absent = elim (Bool-cases (p x)) [
  | inl before ↦ ground (arith, rw before at absent)
  | inr unmet ↦ rw unmet (added-first_where p ds d met (rw unmet at absent))
]

module _ (db : Db) (workflow_id : ℕ) (dag : DagRow) (path : String) where
  abbrev pub after : Db
  after = create_rescue workflow_id dag path db

  abbrev pub child : DagRow
  child = let row = rescue_row workflow_id dag path in record row { id = db.next_id }

  -- The DAGs that were there are found as before.
  get_dag-create_rescue : (id : ℕ) → id < db.next_id → get_dag id after ≡ get_dag id db
  unfolding get_dag create_rescue
  get_dag-create_rescue id lt = other-first_where (is_dag id) db.dags child (ground arith)

  rescue_chain-create_rescue :
      AreChained db
      → (fuel : ℕ) (d : DagRow) → IsPlaced db.next_id d
      → rescue_chain after fuel d ≡ rescue_chain db fuel d
  unfolding rescue_chain IsPlaced
  rescue_chain-create_rescue h zero d placed = refl
  rescue_chain-create_rescue h (suc fuel) d placed = elim (Option-cases d.parent_dag_id) [
    | inl root ↦
        rw (root-rescue_chain after (suc fuel) d root, root-rescue_chain db (suc fuel) d root)
    | inr (parent, old) ↦
        rw
          (
            child-rescue_chain after fuel parent d old,
            child-rescue_chain db fuel parent d old,
            get_dag-create_rescue parent (omega (arith, placed.0, no_child d parent placed.1 old)),
          )
          (elim (Option-cases (get_dag parent db)) [
            | inl lost ↦ rw lost
            | inr (current, found) ↦ rw (
              found,
              rescue_chain-create_rescue h fuel current
                  (get_dag-IsPlaced db h parent current found).0,
            )
          ])
  ]

  first_where-fresh :
      (ds : List DagRow) → All (IsPlaced db.next_id) ds → first_where (is_dag db.next_id) ds ≡ none
  unfolding first_where IsPlaced
  first_where-fresh [] h = refl
  first_where-fresh (d ∷ ds) h = ground (arith, first_where-fresh ds h.1)

  younger : (ds : List DagRow) → All (IsPlaced db.next_id) ds → All (IsPlaced (db.next_id + 1)) ds
  unfolding IsPlaced
  younger [] h = tt
  younger (d ∷ ds) h = ((omega (arith, h.0.0), h.0.1), younger ds h.1)

  child-count :
      AreChained db
      → get_dag dag.id db ≡ some dag
      → (fuel : ℕ) → dag.id < fuel
      → rescue_chain after fuel child ≡ suc (count_rescue_chain db dag)
  unfolding count_rescue_chain rescue_row IsPlaced
  child-count h there zero lt = ground arith
  child-count h there (suc fuel) lt =
      let (placed, _) = get_dag-IsPlaced db h dag.id dag there in
      rw (
        child-rescue_chain after fuel dag.id child refl,
        get_dag-create_rescue dag.id placed.0,
        there,
        rescue_chain-create_rescue h fuel dag placed,
        rescue_chain-fuel db h fuel dag.id dag placed.1 (omega arith) (omega arith),
      )

  -- A rescue adds the new DAG under a fresh identifier, its chain counts one rescue more than that of
  -- the DAG it came from, and identifiers go on growing.
  pub count_rescue_chain-create_rescue :
      AreChained db
      → get_dag dag.id db ≡ some dag
      → (get_dag db.next_id after ≡ some child)
        × ((count_rescue_chain after child ≡ suc (count_rescue_chain db dag)) × AreChained after)
  unfolding count_rescue_chain AreChained IsPlaced get_dag create_rescue
  count_rescue_chain-create_rescue h there = (
    added-first_where (is_dag db.next_id) db.dags child (ground arith)
        (first_where-fresh db.dags h),
    (
      child-count h there db.next_id (get_dag-IsPlaced db h dag.id dag there).0.0,
      All-append (IsPlaced (db.next_id + 1)) db.dags (child ∷ []) (younger db.dags h)
          ((omega arith, (get_dag-IsPlaced db h dag.id dag there).0.0), tt),
    ),
  )
