-- ===== src/Lifecycle/Operator.antt =====
-- The operator's actions: `release_held_request`, `fail_request` and `restart_request`.
use Prim.Native.String.{◌++◌ as append}
use condora.Base.{ℕ, String, Bool, true, false, [], Option, none, some, ◌+◌, if◌then◌else◌}
use condora.Base.Texts.{decimal}
use condora.Enums.{RequestStatus}
use condora.Rows.{RequestRow, WorkflowRow, DagRow}
use condora.Repository.{
  get_request, create_request, update_request, get_workflow_by_request,
  get_active_dags_for_workflow,
}
use condora.Effects.{
  remove_job, remove_dag_children, Condor, M, value_error, ◌>>=◌, ◌>>◌, pure, throw, query, done,
  update, try_quietly, perform, for_each,
}
use condora.Lifecycle.Transitions.{transition}
use condora.Lifecycle.Stop.{fail_outputs}

abbrev pub is_held : RequestStatus → Bool
is_held RequestStatus.held = true
is_held _ = false

abbrev pub is_failable : RequestStatus → Bool
is_failable RequestStatus.held = true
is_failable RequestStatus.partial = true
is_failable RequestStatus.paused = true
is_failable _ = false

-- Already aborted or failed.
abbrev pub is_over : RequestStatus → Bool
is_over RequestStatus.aborted = true
is_over RequestStatus.failed = true
is_over _ = false

abbrev pub is_restartable : RequestStatus → Bool
is_restartable RequestStatus.held = true
is_restartable RequestStatus.partial = true
is_restartable RequestStatus.paused = true
is_restartable RequestStatus.aborted = true
is_restartable RequestStatus.failed = true
is_restartable _ = false

-- The row of the request; `ValueError` where there is none.
unfoldable pub require : String → M RequestRow
unfolding get_request
require request_name = do
  request ← query (get_request request_name)
  elim request [ none ↦ throw value_error | some r ↦ pure r ]

module _ (condor : Condor) (now : ℕ) where
  unfoldable pub release_held_request : String → M (Unit {0})
  unfolding require transition
  release_held_request request_name = do
    r ← require request_name
    if is_held r.status then transition now request_name RequestStatus.queued else throw value_error

  unfoldable pub kill_dag : DagRow → M (Unit {0})
  unfolding perform
  kill_dag d = do
    try_quietly (perform condor (remove_dag_children d.schedd_name d.dagman_cluster_id))
    try_quietly (perform condor (remove_job d.schedd_name d.dagman_cluster_id))

  unfoldable pub fail_workflow : WorkflowRow → M (Unit {0})
  unfolding kill_dag fail_outputs get_active_dags_for_workflow for_each
  fail_workflow w = do
    active ← query (get_active_dags_for_workflow w.id)
    for_each active kill_dag
    fail_outputs w.id

  unfoldable pub fail_all : String → M (Unit {0})
  unfolding fail_workflow get_workflow_by_request transition
  fail_all request_name = do
    workflow ← query (get_workflow_by_request request_name)
    elim workflow [ none ↦ done | some w ↦ fail_workflow w ]
    transition now request_name RequestStatus.failed

  unfoldable pub fail_request : String → M (Unit {0})
  unfolding require fail_all
  fail_request request_name = do
    r ← require request_name
    if is_failable r.status then fail_all request_name else throw value_error

  abbrev version_of : Option ℕ → ℕ
  version_of none = 1
  version_of (some v) = v

  -- The clone of a request under its new version.
  unfoldable pub next_version : RequestRow → RequestRow
  next_version r =
      let new_version = version_of r.processing_version + 1 in
      record r {
        request_name = append r.request_name (append "_v" (decimal new_version));
        processing_version = some new_version;
        status = RequestStatus.submitted;
        status_transitions = [];
        previous_version_request = some r.request_name;
        superseded_by_request = none;
        created_at = now;
        updated_at = now;
      }

  -- Steps 2 to 4 of `restart_request`.
  unfoldable pub replace_by : RequestRow → RequestRow → M String
  unfolding create_request update_request fail_request
  replace_by r clone = do
    update (create_request clone)
    update (
        update_request now r.request_name
          (λ r'. record r' { superseded_by_request = some clone.request_name }))
    if is_over r.status then done else fail_request r.request_name
    pure clone.request_name

  unfoldable pub restart_request : String → M String
  unfolding require next_version replace_by
  restart_request request_name = do
    r ← require request_name
    if is_restartable r.status then replace_by r (next_version r) else throw value_error
