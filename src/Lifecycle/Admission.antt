-- ===== src/Lifecycle/Admission.antt =====
-- `_handle_queued` and `_handle_pilot_running`: how a request gets its next DAG.
use condora.Base.{
  ℕ, String, Bool, true, false, Option, none, some, ◌&&◌, ◌||◌, ◌==◌, not, ltb, leb, is_empty,
  string_eq, if◌then◌else◌,
}
use condora.Enums.{RequestStatus, WorkflowStatus, DagStatus, is_live}
use condora.Rows.{RequestRow, WorkflowRow, DagRow}
use condora.Config.{Settings}
use condora.Repository.{
  get_queued_request, get_workflow_by_request, update_workflow, update_dag,
  get_active_dags_for_workflow, count_active_dags,
}
use condora.Effects.{
  submit_dag, Answer, answer, unreachable, Condor, M, ◌>>=◌, ◌>>◌, pure, query, done, update,
  submit, ask,
}
use condora.Lifecycle.Transitions.{transition}
use condora.Lifecycle.Stop.{head_dag}

-- The operations of the DAG planner, src/condora/core/dag_planner.py, that the handlers call.
pub record Planner : Type 0 where
  pub plan_production_dag : WorkflowRow → Bool → M (Option DagRow)
  pub handle_pilot_completion : WorkflowRow → Bool → M (Unit {0})

-- The spool and the disk: whether the settings name a spool, the schedd that is drawn, whether a
-- directory or a file is there, the path of a DAG file in a local copy, and a spool directory as it
-- is mounted.
pub record Disk : Type 0 where
  pub has_spool : Bool
  pub drawn_schedd : Option String
  pub is_dir : String → Bool
  pub has_pilot_metrics : WorkflowRow → Bool
  pub copy_of : String → String
  pub mounted : String → String

abbrev pub is_ready_rescue : DagRow → Bool
is_ready_rescue d = elim d.rescue_dag_path [
  | none ↦ false
  | some path ↦ elim d.status [ DagStatus.ready ↦ true | _ ↦ false ]
]

module _ (condor : Condor) (disk : Disk) (now : ℕ) where
  unfoldable pub use_spool : WorkflowRow → Bool
  use_spool w = w.condor_pool == "global" && disk.has_spool

  -- `new_submit_dir`
  unfoldable pub new_submit_dir : Bool → DagRow → ℕ → String → M String
  new_submit_dir false d cluster_id schedd = pure d.submit_dir
  new_submit_dir true d cluster_id schedd = do
    iwd ← ask (λ calls. condor.job_iwd calls cluster_id schedd)
    pure (elim iwd [ none ↦ d.submit_dir | some dir ↦ disk.mounted dir ])

  -- The rescue DAG goes to the pool again.
  unfoldable pub readmit : String → WorkflowRow → DagRow → M (Unit {0})
  unfolding use_spool new_submit_dir submit update_dag update_workflow transition
  readmit request_name w d = do
    let spool = use_spool w
    let dag_file = if spool then disk.copy_of d.dag_file_path else d.dag_file_path
    (cluster_id, schedd) ←
        submit condor (submit_dag dag_file spool (if spool then disk.drawn_schedd else none))
    dir ← new_submit_dir spool d cluster_id schedd
    update (
        update_dag d.id (λ d'. record d' {
          dagman_cluster_id = some cluster_id;
          schedd_name = some schedd;
          status = DagStatus.submitted;
          submit_dir = dir;
        }))
    update (update_workflow w.id (λ w'. record w' { status = WorkflowStatus.active }))
    transition now request_name RequestStatus.active

  -- A plan of the next round, or the end of the request where nothing is left to plan.
  unfoldable pub plan_round : Planner → String → Bool → WorkflowRow → M (Unit {0})
  unfolding update_workflow transition
  plan_round planner request_name adaptive w = do
    dag ← planner.plan_production_dag w (if ltb 0 w.current_round then true else adaptive)
    elim dag [
      | none ↦
          update (update_workflow w.id (λ w'. record w' { status = WorkflowStatus.completed }))
          >> transition now request_name RequestStatus.completed
      | some d ↦ transition now request_name RequestStatus.active
    ]

  -- Whether the spool directory of a rescue is gone.
  abbrev pub is_spool_lost : WorkflowRow → DagRow → Bool
  is_spool_lost w d = use_spool w && (not (d.submit_dir == "") && not (disk.is_dir d.submit_dir))

  unfoldable pub admit_head : Planner → String → Bool → WorkflowRow → Option DagRow → M (Unit {0})
  unfolding plan_round readmit update_dag transition
  admit_head planner request_name adaptive w none = plan_round planner request_name adaptive w
  admit_head planner request_name adaptive w (some d) =
      if is_live d.status
      then transition now request_name RequestStatus.active
      else if is_ready_rescue d
      then if is_spool_lost w d
        then (update (update_dag d.id (λ d'. record d' { status = DagStatus.failed }))
            >> plan_round planner request_name adaptive w)
        else readmit request_name w d
      else plan_round planner request_name adaptive w

  unfoldable pub admit : Planner → String → Bool → WorkflowRow → M (Unit {0})
  unfolding get_active_dags_for_workflow head_dag admit_head transition
  admit planner request_name adaptive w = do
    active ← query (get_active_dags_for_workflow w.id)
    head ← query (head_dag w)
    if is_empty active
        then admit_head planner request_name adaptive w head
        else transition now request_name RequestStatus.active

  -- Another request is the next one.
  abbrev pub is_behind : String → Option RequestRow → Bool
  is_behind request_name none = false
  is_behind request_name (some r) = not (r.request_name == request_name)

  unfoldable pub handle_queued : Settings → Option Planner → RequestRow → M (Unit {0})
  unfolding count_active_dags get_queued_request get_workflow_by_request admit
  handle_queued settings none request = done
  handle_queued settings (some planner) request = do
    active_count ← query count_active_dags
    next_pending ← query get_queued_request
    workflow ← query (get_workflow_by_request request.request_name)
    if leb settings.max_active_dags active_count || is_behind request.request_name next_pending
        then done
        else elim workflow [
          | none ↦ done
          | some w ↦ admit planner request.request_name request.adaptive w
        ]

  unfoldable pub finish_pilot : Planner → String → Bool → WorkflowRow → M (Unit {0})
  unfolding transition
  finish_pilot planner request_name adaptive w = do
    if disk.has_pilot_metrics w
        then planner.handle_pilot_completion w adaptive
        else (planner.plan_production_dag w adaptive >> done)
    transition now request_name RequestStatus.active

  -- A pool out of reach is asked again in the next cycle.
  unfoldable pub after_poll : Planner → String → Bool → WorkflowRow → Answer Bool → M (Unit {0})
  unfolding finish_pilot
  after_poll planner request_name adaptive w unreachable = done
  after_poll planner request_name adaptive w (answer completed) =
      if completed then finish_pilot planner request_name adaptive w else done

  unfoldable pub poll_pilot : Planner → String → Bool → WorkflowRow → ℕ → M (Unit {0})
  unfolding after_poll
  poll_pilot planner request_name adaptive w cluster_id s =
      after_poll planner request_name adaptive w
        (condor.job_completed s.calls w.pilot_schedd (some cluster_id)) s

  unfoldable pub handle_pilot_running : Option Planner → RequestRow → M (Unit {0})
  unfolding get_workflow_by_request poll_pilot
  handle_pilot_running none request = done
  handle_pilot_running (some planner) request = do
    workflow ← query (get_workflow_by_request request.request_name)
    elim workflow [
      | none ↦ done
      | some w ↦ elim w.pilot_cluster_id [
        | none ↦ done
        | some cluster_id ↦ poll_pilot planner request.request_name request.adaptive w cluster_id
      ]
    ]
