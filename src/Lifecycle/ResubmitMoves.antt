-- ===== src/Lifecycle/ResubmitMoves.antt =====
-- Which transitions the handlers of new and of resubmitted requests make.
use Prim.Native.String.{◌++◌ as append}
use condora.Base.{
  ℕ, String, Bool, true, false, List, [], ◌∷◌, map, Option, none, some, ◌≡◌, inl, inr, refl, ap,
  Bool-cases, ◌==◌, string_eq, if◌then◌else◌,
}
use condora.Enums.{RequestStatus, is_live}
use condora.Rows.{RequestRow, WorkflowRow, DagRow}
use condora.Repository.{get_request, get_workflow_by_request, update_request, update_where}
use condora.Effects.{M, ◌>>=◌, done, update, query}
use condora.Lifecycle.Transitions.{transition}
use condora.Lifecycle.Stop.{head_dag}
use condora.Lifecycle.Resubmit.{
  create_rescue, consume_step, has_steps, take_step, prepare_recovery, stopped_dag, resubmit,
  handle_resubmitting, handle_submitted,
}
use condora.Lifecycle.View.{
  Keeps, Moves, bind-Moves, view_of, transition-Moves, if-Keeps, option-Keeps, option-Moves,
}

-- The import of a request, where there is one, makes no transition.
abbrev pub IsQuietImport : Option (String → M (Unit {0})) → Type 0
IsQuietImport none = Unit
IsQuietImport (some f) = (name : String) → Keeps (f name)

-- A step of the priorities changes no status.
views-consume_step : (r : RequestRow) → view_of (consume_step r) ≡ view_of r
unfolding consume_step
views-consume_step r =
    elim r.production_steps
      as (λ steps.
        view_of (elim steps [
          | [] ↦ r
          | step ∷ remaining ↦ record r { priority = step.priority; production_steps = remaining }
        ])
        ≡ view_of r) [ [] ↦ refl | step ∷ remaining ↦ refl ]

pub views-update_request :
    (now : ℕ) (p : RequestRow → Bool) (rows : List RequestRow)
    → map view_of
        (update_where p (λ r. let r' = consume_step r in record r' { updated_at = now }) rows)
      ≡ map view_of rows
unfolding update_where
views-update_request now p [] = refl
views-update_request now p (r ∷ rows) = elim (Bool-cases (p r)) [
  | inl own ↦
      rw (own, views-update_request now p rows)
        (ap (λ v. v ∷ map view_of rows) (views-consume_step r))
  | inr other ↦ rw (other, views-update_request now p rows)
]

module _ (now : ℕ) (name : String) (E : RequestStatus → Type 0) where
  take_step-Keeps : Keeps (take_step now name)
  unfolding take_step update_request
  take_step-Keeps s =
      option-Keeps (get_request name s.db) done
        (λ r. if has_steps r then update (update_request now name consume_step) else done)
        (λ s'. refl)
        (λ r.
          if-Keeps (has_steps r) (update (update_request now name consume_step)) done
            (λ s'. views-update_request now (λ r'. r'.request_name == name) s'.db.requests)
            (λ s'. refl))
        s

  prepare_recovery-Moves :
      (w : WorkflowRow) (d : DagRow)
      → E RequestStatus.queued
      → Moves now name E (prepare_recovery now name w d)
  unfolding prepare_recovery create_rescue
  prepare_recovery-Moves w d edge =
      bind-Moves now name E (update (create_rescue w.id d (append d.dag_file_path ".rescue001")))
        (λ _. take_step now name >>= λ _. transition now name RequestStatus.queued) (λ s. refl)
        (λ _.
          bind-Moves now name E (take_step now name) (λ _. transition now name RequestStatus.queued)
            take_step-Keeps (λ _. transition-Moves now name E RequestStatus.queued edge))

  resubmit-Moves :
      (w : WorkflowRow) → E RequestStatus.queued → Moves now name E (resubmit now name w)
  unfolding resubmit
  resubmit-Moves w edge s =
      option-Moves now name E (stopped_dag (head_dag w s.db))
        (transition now name RequestStatus.queued) (prepare_recovery now name w)
        (transition-Moves now name E RequestStatus.queued edge)
        (λ d. prepare_recovery-Moves w d edge) s

  -- A request whose stop is over goes to QUEUED.
  pub handle_resubmitting-Moves :
      E RequestStatus.queued → Moves now name E (handle_resubmitting now name)
  unfolding handle_resubmitting
  handle_resubmitting-Moves edge s =
      option-Moves now name E (get_workflow_by_request name s.db)
        (transition now name RequestStatus.queued) (resubmit now name)
        (transition-Moves now name E RequestStatus.queued edge) (λ w. resubmit-Moves w edge) s

  -- A new request goes to QUEUED, or to ACTIVE.
  pub handle_submitted-Moves :
      (import_request : Option (String → M (Unit {0})))
      → IsQuietImport import_request
      → E RequestStatus.queued
      → E RequestStatus.active
      → Moves now name E (handle_submitted now import_request name)
  unfolding handle_submitted
  handle_submitted-Moves none quiet queued active s = inl refl
  handle_submitted-Moves (some f) quiet queued active s =
      option-Moves now name E (get_workflow_by_request name s.db)
        (f name >>= λ _. transition now name RequestStatus.queued)
        (λ w. query (head_dag w) >>= λ head. transition now name (elim head [
          | none ↦ RequestStatus.queued
          | some d ↦ if is_live d.status then RequestStatus.active else RequestStatus.queued
        ]))
        (bind-Moves now name E (f name) (λ _. transition now name RequestStatus.queued) (quiet name)
          (λ _. transition-Moves now name E RequestStatus.queued queued))
        (λ w s'.
          transition-Moves now name E
            (elim (head_dag w s'.db) [
              | none ↦ RequestStatus.queued
              | some d ↦ if is_live d.status then RequestStatus.active else RequestStatus.queued
            ])
            (edge_of (head_dag w s'.db)) s')
        s
    where
      edge_of :
          (head : Option DagRow)
          → E (elim head [
            | none ↦ RequestStatus.queued
            | some d ↦ if is_live d.status then RequestStatus.active else RequestStatus.queued
          ])
      edge_of none = queued
      edge_of (some d) =
          elim (is_live d.status)
            as (λ b. E (if b then RequestStatus.active else RequestStatus.queued)) [
              | true ↦ active
              | false ↦ queued
            ]
