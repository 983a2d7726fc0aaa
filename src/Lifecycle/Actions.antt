-- ===== src/Lifecycle/Actions.antt =====
-- Which of the operator's actions are refused, and what the others do.
use condora.Base.{
  ℕ, String, Bool, true, false, List, [], ◌∷◌, map, Option, none, some, ◌≡◌, inl, inr, refl, ap,
  ◌∙◌, Bool-cases, Option-cases, string_eq,
}
use condora.Enums.{RequestStatus, is_settled, is_open_block}
use condora.Rows.{RequestRow, WorkflowRow, DagRow, BlockRow}
use condora.Repository.{
  get_request, get_workflow_by_request, get_active_dags_for_workflow, update_request, list_dags,
  get_processing_blocks,
}
use condora.Effects.{
  Condor, State, Result, return, raise, value_error, M, and_then, ◌>>=◌, ◌>>◌, done, query, perform,
  for_each,
}
use condora.Lifecycle.Transitions.{transition}
use condora.Lifecycle.Stop.{fail_outputs, fail_dag, fail_block}
use condora.Lifecycle.Operator.{
  is_held, is_failable, require, release_held_request, kill_dag, fail_workflow, fail_all,
  fail_request,
}
use condora.Lifecycle.View.{views, move_view, map-update_where}

-- Whether the request is there and in a status that an action admits.
abbrev pub is_admitted : (RequestStatus → Bool) → Option RequestRow → Bool
is_admitted admits none = false
is_admitted admits (some r) = admits r.status

-- An action on a request that is refused raises and changes nothing; one that is not succeeds, and
-- moves the request to a status.
abbrev pub IsAction : Bool → ℕ → String → RequestStatus → State → Result (Unit {0}) × State → Type 0
IsAction true now name to s after =
    (after.0 ≡ return tt) × (views after.1 ≡ map (move_view now name to) (views s))
IsAction false now name to s after = after ≡ (raise value_error, s)

-- A part that always succeeds and makes no transition.
unfoldable pub Runs : M (Unit {0}) → Type 0
Runs m = (s : State) → (m s).0 ≡ return tt × (views (m s).1 ≡ views s)

pub bind-Runs : (m n : M (Unit {0})) → Runs m → Runs n → Runs (m >> n)
unfolding Runs
bind-Runs m n hm hn s =
    let next : and_then (m s).0 (λ _. n) (m s).1 ≡ n (m s).1 = rw (hm s).0 refl in
    (ap (λ p. p.0) next ∙ (hn (m s).1).0, ap (λ p. views p.1) next ∙ (hn (m s).1).1 ∙ (hm s).1)

pub for_each-Runs :
    {A : Type 0} (xs : List A) (body : A → M (Unit {0}))
    → ((x : A) → Runs (body x))
    → Runs (for_each xs body)
unfolding for_each Runs
for_each-Runs [] body h s = (refl, refl)
for_each-Runs (x ∷ xs) body h s =
    bind-Runs (body x) (for_each xs body) (h x) (for_each-Runs xs body h) s

fail_dag-Runs : (d : DagRow) → Runs (fail_dag d)
unfolding fail_dag Runs
fail_dag-Runs d s = elim (Bool-cases (is_settled d.status)) [
  | inl settled ↦ rw settled (refl, refl)
  | inr live ↦ rw live (refl, refl)
]

fail_block-Runs : (b : BlockRow) → Runs (fail_block b)
unfolding fail_block Runs
fail_block-Runs b s = elim (Bool-cases (is_open_block b.status)) [
  | inl live ↦ rw live (refl, refl)
  | inr settled ↦ rw settled (refl, refl)
]

pub fail_outputs-Runs : (workflow_id : ℕ) → Runs (fail_outputs workflow_id)
unfolding fail_outputs Runs
fail_outputs-Runs workflow_id s =
    bind-Runs (for_each (list_dags workflow_id s.db) fail_dag)
      (query (get_processing_blocks workflow_id) >>= λ blocks. for_each blocks fail_block)
      (for_each-Runs (list_dags workflow_id s.db) fail_dag fail_dag-Runs)
      (λ s'. for_each-Runs (get_processing_blocks workflow_id s'.db) fail_block fail_block-Runs s')
      s

kill_dag-Runs : (condor : Condor) (now : ℕ) (d : DagRow) → Runs (kill_dag condor now d)
unfolding kill_dag perform Runs
kill_dag-Runs condor now d s = (refl, refl)

fail_workflow-Runs :
    (condor : Condor) (now : ℕ) (w : WorkflowRow) → Runs (fail_workflow condor now w)
unfolding fail_workflow Runs
fail_workflow-Runs condor now w s =
    let active = get_active_dags_for_workflow w.id s.db in
    bind-Runs (for_each active (kill_dag condor now)) (fail_outputs w.id)
      (for_each-Runs active (kill_dag condor now) (kill_dag-Runs condor now))
      (fail_outputs-Runs w.id) s

fail_all-runs :
    (condor : Condor) (now : ℕ) (name : String) (s : State)
    → IsAction true now name RequestStatus.failed s (fail_all condor now name s)
unfolding fail_all transition update_request Runs
fail_all-runs condor now name s = after (get_workflow_by_request name s.db)
  where
    after :
        (workflow : Option WorkflowRow)
        → IsAction true now name RequestStatus.failed s (
            ((elim workflow [ none ↦ done | some w ↦ fail_workflow condor now w ])
                >> transition now name RequestStatus.failed)
              s)
    after none = (refl, map-update_where now name RequestStatus.failed s.db.requests)
    after (some w) =
        let run = fail_workflow-Runs condor now w s in
        let s' = (fail_workflow condor now w s).1 in
        let next : and_then (fail_workflow condor now w s).0
              (λ _. transition now name RequestStatus.failed) s'
            ≡ transition now name RequestStatus.failed s' =
          rw run.0 refl in
        (
          ap (λ p. p.0) next,
          ap (λ p. views p.1) next
              ∙ map-update_where now name RequestStatus.failed s'.db.requests
              ∙ ap (map (move_view now name RequestStatus.failed)) run.1,
        )

-- The failing of a request succeeds exactly where the request is HELD, PARTIAL or PAUSED, whatever the
-- pool answers, and moves it to FAILED; otherwise it raises, and the state is as before.
pub fail_request-IsAction :
    (condor : Condor) (now : ℕ) (name : String) (s : State)
    → IsAction
        (is_admitted is_failable (get_request name s.db))
        now
        name
        RequestStatus.failed
        s
        (fail_request condor now name s)
unfolding fail_request require
fail_request-IsAction condor now name s = elim (Option-cases (get_request name s.db)) [
  | inl missing ↦ rw missing refl
  | inr (r, found) ↦ elim (Bool-cases (is_failable r.status)) [
    | inl failable ↦ rw (found, failable) (fail_all-runs condor now name s)
    | inr other ↦ rw (found, other) refl
  ]
]

-- The release of a request succeeds exactly where the request is HELD, and moves it to QUEUED;
-- otherwise it raises, and the state is as before.
pub release_held_request-IsAction :
    (condor : Condor) (now : ℕ) (name : String) (s : State)
    → IsAction
        (is_admitted is_held (get_request name s.db))
        now
        name
        RequestStatus.queued
        s
        (release_held_request condor now name s)
unfolding release_held_request require transition update_request
release_held_request-IsAction condor now name s = elim (Option-cases (get_request name s.db)) [
  | inl missing ↦ rw missing refl
  | inr (r, found) ↦ elim (Bool-cases (is_held r.status)) [
    | inl held ↦
        rw (found, held) (refl, map-update_where now name RequestStatus.queued s.db.requests)
    | inr other ↦ rw (found, other) refl
  ]
]
