-- ===== src/Lifecycle/ActiveOwn.antt =====
-- The request that `_handle_active` goes on with is the one it was called for.
use mathlib.Core.Path.{subst}
use condora.Base.{
  ℕ, String, Bool, true, false, List, [], ◌∷◌, Option, none, some, ◌≡◌, sym, ◌==◌, string_eq,
  Bool-cases, inl, inr, if◌then◌else◌,
}
use condora.Enums.{DagStatus}
use condora.Config.{Settings}
use condora.Rows.{RequestRow, WorkflowRow, DagRow}
use condora.Repository.{first_where, is_request, get_request, get_workflow_by_request, get_dag}
use condora.Effects.{M, ◌>>◌, pure, query}
use condora.Effects.Maintains.{Returns, bind-Returns, bind-Returns_where}
use condora.Monitor.Poll.{Monitor, poll_dag}
use condora.Lifecycle.Active.{ActiveWork, RoundSettings, cleanup_condor_dag}
use condora.Lifecycle.Active.Round.{is_active_request, refetch, handle_dag_round_completion}
use condora.Lifecycle.Active.Units.{process_completed_wus}
use condora.Lifecycle.Active.Cycle.{
  Next, finish_dag, fail_one, tend_dag, tend_again, finish_head, after_dag, refreshed, follow_dag,
  follow_dags, close_head, check_head,
}

module _ (name : String) where
  abbrev pub IsOwnRow : Option RequestRow → Type 0
  IsOwnRow none = Unit
  IsOwnRow (some r) = r.request_name ≡ name

  abbrev pub IsOwn : Next → Type 0
  IsOwn none = Unit
  IsOwn (some (r, w)) = r.request_name ≡ name

  first_where-IsOwnRow : (rows : List RequestRow) → IsOwnRow (first_where (is_request name) rows)
  unfolding first_where
  first_where-IsOwnRow [] = tt
  first_where-IsOwnRow (r ∷ rows) = elim (Bool-cases (r.request_name == name)) [
    | inl met ↦ rw met ((string_eq.same_iff r.request_name name).0 met)
    | inr unmet ↦ rw unmet (first_where-IsOwnRow rows)
  ]

  if-IsOwn : (b : Bool) (next : Next) → IsOwn next → IsOwn (if b then next else none)
  if-IsOwn true next own = own
  if-IsOwn false next own = tt

  with_workflow-IsOwn :
      (r : RequestRow) (w : Option WorkflowRow)
      → r.request_name ≡ name
      → IsOwn (elim w as (λ _. Next) [ none ↦ none | some w' ↦ some (r, w') ])
  with_workflow-IsOwn r none own = tt
  with_workflow-IsOwn r (some w) own = own

  fetched-IsOwn :
      (o : Option RequestRow) (w : Option WorkflowRow)
      → IsOwnRow o
      → IsOwn (elim o as (λ _. Next) [
        | none ↦ none
        | some r ↦
            if is_active_request r.status
            then elim w as (λ _. Next) [ none ↦ none | some w' ↦ some (r, w') ]
            else none
      ])
  fetched-IsOwn none w own = tt
  fetched-IsOwn (some r) w own =
      if-IsOwn (is_active_request r.status) _ (with_workflow-IsOwn r w own)

  pub refetch-Returns : Returns IsOwn (refetch name)
  unfolding refetch get_request
  refetch-Returns s =
      fetched-IsOwn (get_request name s.db) (get_workflow_by_request name s.db)
        (first_where-IsOwnRow s.db.requests)

  module _ (work : ActiveWork) (settings : Settings) (rounds : RoundSettings) (now : ℕ) where
    refetched-Returns :
        {A : Type 0} (r : RequestRow) (own : r.request_name ≡ name) (m : M A)
        → Returns IsOwn (m >> refetch r.request_name)
    refetched-Returns r own m =
        bind-Returns IsOwn m (λ _. refetch r.request_name)
          (λ _. subst (λ n. Returns IsOwn (refetch n)) (sym own) refetch-Returns)

    then_pure-Returns :
        {A : Type 0} (m : M A) (next : Next) → IsOwn next → Returns IsOwn (m >> pure next)
    then_pure-Returns m next own = bind-Returns IsOwn m (λ _. pure next) (λ _ s. own)

    tended-Returns :
        (r : RequestRow) (own : r.request_name ≡ name) (w : WorkflowRow) (d : DagRow)
        → Returns IsOwn (tend_again work settings rounds now r w d)
    unfolding tend_again
    tended-Returns r own w d =
        bind-Returns IsOwn (query (get_dag d.id))
          (λ dag. tend_dag work settings rounds now w dag >> pure (some (r, w)))
          (λ dag. then_pure-Returns (tend_dag work settings rounds now w dag) (some (r, w)) own)

    pub after_dag-Returns :
        (r : RequestRow) (own : r.request_name ≡ name) (w : WorkflowRow) (d : DagRow)
        (status : DagStatus)
        → Returns IsOwn (after_dag work settings rounds now r w d status)
    unfolding after_dag
    after_dag-Returns r own w d DagStatus.completed =
        refetched-Returns r own (finish_dag work settings rounds now r d)
    after_dag-Returns r own w d DagStatus.partial =
        refetched-Returns r own (fail_one work settings rounds now r w d)
    after_dag-Returns r own w d DagStatus.failed =
        refetched-Returns r own (fail_one work settings rounds now r w d)
    after_dag-Returns r own w d DagStatus.planning = tended-Returns r own w d
    after_dag-Returns r own w d DagStatus.ready = tended-Returns r own w d
    after_dag-Returns r own w d DagStatus.submitted = tended-Returns r own w d
    after_dag-Returns r own w d DagStatus.running = tended-Returns r own w d
    after_dag-Returns r own w d DagStatus.removed = tended-Returns r own w d
    after_dag-Returns r own w d DagStatus.halted = tended-Returns r own w d
    after_dag-Returns r own w d DagStatus.stopped = tended-Returns r own w d

    pub follow_dag-Returns :
        (monitor : Monitor) (r : RequestRow) (own : r.request_name ≡ name) (w : WorkflowRow)
        (d : DagRow)
        → Returns IsOwn (follow_dag work settings rounds now monitor r w d)
    unfolding follow_dag
    follow_dag-Returns monitor r own w d = bind-Returns IsOwn (poll_dag monitor d) _ (λ result.
        bind-Returns IsOwn (process_completed_wus work now r w result) _ (λ _.
          bind-Returns IsOwn (query (get_dag d.id))
            (λ current. after_dag work settings rounds now r w (refreshed d current) result.status)
            (λ current. after_dag-Returns r own w (refreshed d current) result.status)))

    pub follow_dags-Returns :
        (monitor : Monitor) (dags : List DagRow) (next : Next)
        → IsOwn next
        → Returns IsOwn (follow_dags work settings rounds now monitor dags next)
    unfolding follow_dags
    follow_dags-Returns monitor [] next own = λ s. own
    follow_dags-Returns monitor (d ∷ dags) none own = λ s. tt
    follow_dags-Returns monitor (d ∷ dags) (some (r, w)) own =
        bind-Returns_where IsOwn IsOwn (follow_dag work settings rounds now monitor r w d)
          (follow_dags work settings rounds now monitor dags) (follow_dag-Returns monitor r own w d)
          (follow_dags-Returns monitor dags)

    recorded-Returns :
        (r : RequestRow) (own : r.request_name ≡ name) (w : WorkflowRow) (d : DagRow) (b : Bool)
        → Returns IsOwn
            (if b then pure (some (r, w)) else finish_head work settings rounds now r w d)
    unfolding finish_head
    recorded-Returns r own w d true = λ s. own
    recorded-Returns r own w d false =
        then_pure-Returns
          (cleanup_condor_dag work settings rounds d
            >> handle_dag_round_completion work settings now r d)
          (some (r, w)) own

    close_head-Returns :
        (r : RequestRow) (own : r.request_name ≡ name) (w : WorkflowRow) (d : DagRow)
        (status : DagStatus)
        → Returns IsOwn (close_head work settings rounds now r w d status)
    unfolding close_head
    close_head-Returns r own w d DagStatus.completed =
        recorded-Returns r own w d (work.is_recorded w d)
    close_head-Returns r own w d DagStatus.partial =
        then_pure-Returns (fail_one work settings rounds now r w d) none tt
    close_head-Returns r own w d DagStatus.failed =
        then_pure-Returns (fail_one work settings rounds now r w d) none tt
    close_head-Returns r own w d DagStatus.planning = λ s. own
    close_head-Returns r own w d DagStatus.ready = λ s. own
    close_head-Returns r own w d DagStatus.submitted = λ s. own
    close_head-Returns r own w d DagStatus.running = λ s. own
    close_head-Returns r own w d DagStatus.removed = λ s. own
    close_head-Returns r own w d DagStatus.halted = λ s. own
    close_head-Returns r own w d DagStatus.stopped = λ s. own

    pub check_head-Returns :
        (r : RequestRow) (own : r.request_name ≡ name) (w : WorkflowRow) (dags : List DagRow)
        (head : Option DagRow)
        → Returns IsOwn (check_head work settings rounds now r w dags head)
    unfolding check_head
    check_head-Returns r own w [] (some d) = close_head-Returns r own w d d.status
    check_head-Returns r own w [] none = λ s. own
    check_head-Returns r own w (d ∷ dags) head = λ s. own
