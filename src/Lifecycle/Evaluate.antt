-- ===== src/Lifecycle/Evaluate.antt =====
-- `evaluate_request`: the dispatch on the status, `_handle_stuck`, and the failure of one DAG.
use condora.Base.{ℕ, String, Bool, List, Option, none, some, if◌then◌else◌}
use condora.Enums.{RequestStatus}
use condora.Rows.{RequestRow, WorkflowRow, DagRow}
use condora.Config.{Settings}
use condora.Repository.{get_workflow_by_request}
use condora.ErrorHandler.{Action, PostEntry, rescue, hold, CompletionResult, handle_dag_completion}
use condora.Effects.{Condor, M, return, ◌>>=◌, query, done, job_alive, ping}
use condora.Lifecycle.Transitions.{transition, is_stuck}
use condora.Lifecycle.Stop.{head_dag, initiate_clean_stop, handle_stopping}
use condora.Lifecycle.Resubmit.{handle_submitted, handle_resubmitting}
use condora.Lifecycle.Admission.{Planner, Disk, handle_queued, handle_pilot_running}

-- What the error handler reads from disk.
pub record FailureFiles : Type 0 where
  pub exists : String → Bool
  pub post_data : String → List PostEntry

-- The part of the program that a cycle works with. `handle_active` is the handler of an active
-- request, and `import_request` that of the workflow manager; the components may be absent.
pub record Workers : Type 0 where
  pub condor : Condor
  pub disk : Disk
  pub import_request : Option (String → M (Unit {0}))
  pub planner : Option Planner
  pub handle_active : RequestRow → M (Unit {0})

module _ (settings : Settings) (now : ℕ) where
  -- `error_handler.handle_dag_completion`, which changes the database alone.
  unfoldable pub complete_dag :
      FailureFiles → Bool → DagRow → RequestRow → WorkflowRow → M CompletionResult
  complete_dag files has_site_manager d r w s =
      let (db, result) =
        handle_dag_completion settings now files.exists has_site_manager
          (files.post_data d.submit_dir) d r w s.db in
      (return result, record s { db = db })

  unfoldable pub move_failed : String → Action → M (Unit {0})
  unfolding transition
  move_failed request_name rescue = transition now request_name RequestStatus.resubmitting
  move_failed request_name hold = transition now request_name RequestStatus.held

  -- `_handle_single_dag_failure`. The rewriting of submit files on disk is left out.
  unfoldable pub handle_single_dag_failure :
      Option FailureFiles → Bool → RequestRow → WorkflowRow → DagRow → M (Unit {0})
  unfolding complete_dag move_failed
  handle_single_dag_failure none has_site_manager r w d = move_failed r.request_name hold
  handle_single_dag_failure (some files) has_site_manager r w d = do
    completion ← complete_dag files has_site_manager d r w
    move_failed r.request_name completion.action

  unfoldable pub fail_lost_pilot : Condor → String → WorkflowRow → M (Unit {0})
  unfolding job_alive transition
  fail_lost_pilot condor request_name w = elim w.pilot_cluster_id [
    | none ↦ done
    | some cluster_id ↦ do
      alive ← job_alive condor w.pilot_schedd (some cluster_id)
      if alive then done else transition now request_name RequestStatus.failed
  ]

  unfoldable pub handle_stuck_pilot : Condor → String → M (Unit {0})
  unfolding get_workflow_by_request fail_lost_pilot
  handle_stuck_pilot condor request_name = do
    workflow ← query (get_workflow_by_request request_name)
    elim workflow [ none ↦ done | some w ↦ fail_lost_pilot condor request_name w ]

  -- The branch of an active request: whether the schedd of its head DAG answers, which the alert in
  -- the log tells.
  unfoldable pub alert_active : Condor → String → M (Unit {0})
  unfolding get_workflow_by_request head_dag ping
  alert_active condor request_name = do
    workflow ← query (get_workflow_by_request request_name)
    elim workflow [
      | none ↦ done
      | some w ↦ do
        dag ← query (head_dag w)
        elim dag [ none ↦ done | some d ↦ do reachable ← ping condor d.schedd_name; done ]
    ]

  -- The branches of `_handle_stuck`. Of a queued request the program only logs an alert.
  unfoldable pub unstick : Condor → String → RequestStatus → M (Unit {0})
  unfolding transition handle_stuck_pilot alert_active initiate_clean_stop
  unstick condor request_name RequestStatus.submitted =
      transition now request_name RequestStatus.failed
  unstick condor request_name RequestStatus.planning =
      transition now request_name RequestStatus.failed
  unstick condor request_name RequestStatus.resubmitting =
      transition now request_name RequestStatus.failed
  unstick condor request_name RequestStatus.pilot_running = handle_stuck_pilot condor request_name
  unstick condor request_name RequestStatus.stopping =
      initiate_clean_stop condor now request_name "retry after stuck stop"
  unstick condor request_name RequestStatus.active = alert_active condor request_name
  unstick condor request_name _ = done

  unfoldable pub handle_stuck : Condor → RequestRow → M (Unit {0})
  unfolding unstick
  handle_stuck condor r = unstick condor r.request_name r.status

  -- `self._dispatch.get(status)`; the handlers of held, paused and partial requests do nothing.
  unfoldable pub dispatch : Workers → RequestRow → RequestStatus → M (Unit {0})
  unfolding handle_submitted handle_queued handle_pilot_running handle_stopping handle_resubmitting
  dispatch workers r RequestStatus.submitted =
      handle_submitted now workers.import_request r.request_name
  dispatch workers r RequestStatus.queued =
      handle_queued workers.condor workers.disk now settings workers.planner r
  dispatch workers r RequestStatus.pilot_running =
      handle_pilot_running workers.condor workers.disk now workers.planner r
  dispatch workers r RequestStatus.active = workers.handle_active r
  dispatch workers r RequestStatus.stopping = handle_stopping workers.condor now r.request_name
  dispatch workers r RequestStatus.resubmitting = handle_resubmitting now r.request_name
  dispatch workers r _ = done

  unfoldable pub evaluate_request : Workers → RequestRow → M (Unit {0})
  unfolding is_stuck handle_stuck dispatch
  evaluate_request workers r =
      if is_stuck settings now r then handle_stuck workers.condor r else dispatch workers r r.status
