-- ===== src/Lifecycle/Edges.antt =====
-- The state machine of a request, and a cycle as a step of it.
use condora.Base.{ℕ, String, Option, none, some, ◌≢◌, inl, refl, if◌then◌else◌}
use condora.Enums.{RequestStatus}
use condora.Rows.{RequestRow, WorkflowRow}
use condora.Config.{Settings}
use condora.Repository.{get_workflow_by_request}
use condora.Effects.{ping, query, Condor, State, M, done, ◌>>=◌, job_alive}
use condora.Lifecycle.Transitions.{transition, is_stuck}
use condora.Lifecycle.Admission.{Planner, handle_queued, handle_pilot_running}
use condora.Lifecycle.Evaluate.{
  Workers, fail_lost_pilot, handle_stuck_pilot, alert_active, unstick, handle_stuck, dispatch,
  evaluate_request,
}
use condora.Lifecycle.View.{
  IsStep, Keeps, option-Keeps, views, job_alive-Keeps, Moves, transition-Moves, bind-Moves,
  if-Moves, option-Moves,
}
use condora.Lifecycle.Stop.{head_dag}
use condora.Lifecycle.StopMoves.{initiate_clean_stop-Moves, handle_stopping-Moves}
use condora.Lifecycle.ResubmitMoves.{
  IsQuietImport, handle_resubmitting-Moves, handle_submitted-Moves,
}
use condora.Lifecycle.AdmissionMoves.{IsQuiet, handle_queued-Moves, handle_pilot_running-Moves}

-- The transitions that the handlers make.
pub data Edge : RequestStatus → RequestStatus → Type 0 where
  submitted_queued : Edge RequestStatus.submitted RequestStatus.queued
  submitted_active : Edge RequestStatus.submitted RequestStatus.active
  submitted_failed : Edge RequestStatus.submitted RequestStatus.failed
  queued_active : Edge RequestStatus.queued RequestStatus.active
  queued_completed : Edge RequestStatus.queued RequestStatus.completed
  pilot_active : Edge RequestStatus.pilot_running RequestStatus.active
  pilot_failed : Edge RequestStatus.pilot_running RequestStatus.failed
  planning_failed : Edge RequestStatus.planning RequestStatus.failed
  stopping_again : Edge RequestStatus.stopping RequestStatus.stopping
  stopping_paused : Edge RequestStatus.stopping RequestStatus.paused
  stopping_failed : Edge RequestStatus.stopping RequestStatus.failed
  resubmitting_queued : Edge RequestStatus.resubmitting RequestStatus.queued
  resubmitting_failed : Edge RequestStatus.resubmitting RequestStatus.failed

-- The planner, where there is one, makes no transition.
abbrev pub IsQuietPlanner : Option Planner → Type 0
IsQuietPlanner none = Unit
IsQuietPlanner (some planner) = IsQuiet planner

pub record AreQuiet (workers : Workers) : Type 0 where
  pub import-IsQuiet : IsQuietImport workers.import_request
  pub planner-IsQuiet : IsQuietPlanner workers.planner

-- An alert changes nothing.
pub alert_active-Keeps :
    (settings : Settings) (now : ℕ) (condor : Condor) (name : String)
    → Keeps (alert_active settings now condor name)
unfolding alert_active ping
alert_active-Keeps settings now condor name s =
    option-Keeps (get_workflow_by_request name s.db) done
      (λ w. query (head_dag w) >>= λ dag. elim dag [
        | none ↦ done
        | some d ↦ ping condor d.schedd_name >>= λ reachable. done
      ])
      (λ s'. refl)
      (λ w s'.
        option-Keeps (head_dag w s'.db) done (λ d. ping condor d.schedd_name >>= λ reachable. done)
          (λ s''. refl) (λ d s''. refl) s')
      s

module _ (settings : Settings) (now : ℕ) where
  handle_stuck_pilot-Moves :
      (condor : Condor) (name : String)
      → Moves now name
          (Edge RequestStatus.pilot_running)
          (handle_stuck_pilot settings now condor name)
  unfolding handle_stuck_pilot fail_lost_pilot
  handle_stuck_pilot-Moves condor name s =
      let E = Edge RequestStatus.pilot_running in
      let check : WorkflowRow → ℕ → M (Unit {0}) = λ w cluster_id.
        job_alive condor w.pilot_schedd (some cluster_id) >>= λ alive.
        if alive then done else transition now name RequestStatus.failed in
      option-Moves now name E (get_workflow_by_request name s.db) done
        (λ w. elim w.pilot_cluster_id [ none ↦ done | some cluster_id ↦ check w cluster_id ])
        (λ s'. inl refl)
        (λ w.
          option-Moves now name E w.pilot_cluster_id done (check w) (λ s'. inl refl)
            (λ cluster_id.
              bind-Moves now name E (job_alive condor w.pilot_schedd (some cluster_id))
                (λ alive. if alive then done else transition now name RequestStatus.failed)
                (job_alive-Keeps condor w.pilot_schedd (some cluster_id))
                (λ alive.
                  if-Moves now name E alive done (transition now name RequestStatus.failed)
                    (λ s'. inl refl)
                    (transition-Moves now name E RequestStatus.failed pilot_failed))))
        s

  alert_active-Moves :
      (condor : Condor) (name : String)
      → Moves now name (Edge RequestStatus.active) (alert_active settings now condor name)
  alert_active-Moves condor name s = inl (alert_active-Keeps settings now condor name s)

  unstick-Moves :
      (condor : Condor) (name : String) (status : RequestStatus)
      → Moves now name (Edge status) (unstick settings now condor name status)
  unfolding unstick
  unstick-Moves condor name RequestStatus.submitted =
      transition-Moves now name (Edge RequestStatus.submitted) RequestStatus.failed submitted_failed
  unstick-Moves condor name RequestStatus.planning =
      transition-Moves now name (Edge RequestStatus.planning) RequestStatus.failed planning_failed
  unstick-Moves condor name RequestStatus.resubmitting =
      transition-Moves now name (Edge RequestStatus.resubmitting) RequestStatus.failed
        resubmitting_failed
  unstick-Moves condor name RequestStatus.pilot_running = handle_stuck_pilot-Moves condor name
  unstick-Moves condor name RequestStatus.stopping =
      initiate_clean_stop-Moves condor now name (Edge RequestStatus.stopping)
        "retry after stuck stop" stopping_again
  unstick-Moves condor name RequestStatus.active = alert_active-Moves condor name
  unstick-Moves condor name _ = λ s. inl refl

  module _ (workers : Workers) (quiet : AreQuiet workers) (r : RequestRow) where
    queued-Moves :
        (planner : Option Planner)
        → IsQuietPlanner planner
        → Moves now r.request_name
            (Edge RequestStatus.queued)
            (handle_queued workers.condor workers.disk now settings planner r)
    unfolding handle_queued
    queued-Moves none plans s = inl refl
    queued-Moves (some planner) plans s =
        handle_queued-Moves now workers.condor workers.disk planner plans
          (Edge RequestStatus.queued) queued_active settings r queued_completed s

    pilot-Moves :
        (planner : Option Planner)
        → IsQuietPlanner planner
        → Moves now r.request_name
            (Edge RequestStatus.pilot_running)
            (handle_pilot_running workers.condor workers.disk now planner r)
    unfolding handle_pilot_running
    pilot-Moves none plans s = inl refl
    pilot-Moves (some planner) plans s =
        handle_pilot_running-Moves now workers.condor workers.disk planner plans
          (Edge RequestStatus.pilot_running) pilot_active r s

    dispatch-Moves :
        (status : RequestStatus)
        → status ≢ RequestStatus.active
        → Moves now r.request_name (Edge status) (dispatch settings now workers r status)
    unfolding dispatch
    dispatch-Moves RequestStatus.submitted idle s =
        handle_submitted-Moves now r.request_name (Edge RequestStatus.submitted)
          workers.import_request quiet.import-IsQuiet submitted_queued submitted_active s
    dispatch-Moves RequestStatus.queued idle s =
        queued-Moves workers.planner quiet.planner-IsQuiet s
    dispatch-Moves RequestStatus.pilot_running idle s =
        pilot-Moves workers.planner quiet.planner-IsQuiet s
    dispatch-Moves RequestStatus.active idle s = elim (idle refl) [ ]
    dispatch-Moves RequestStatus.stopping idle s =
        handle_stopping-Moves workers.condor now r.request_name (Edge RequestStatus.stopping)
          stopping_paused stopping_failed s
    dispatch-Moves RequestStatus.resubmitting idle s =
        handle_resubmitting-Moves now r.request_name (Edge RequestStatus.resubmitting)
          resubmitting_queued s
    dispatch-Moves _ idle s = inl refl

    pub evaluate_request-IsStep :
        r.status ≢ RequestStatus.active
        → (s : State)
        → IsStep now r.request_name
            (Edge r.status)
            (views s)
            (views (evaluate_request settings now workers r s).1)
    unfolding evaluate_request handle_stuck
    evaluate_request-IsStep idle =
        if-Moves now r.request_name (Edge r.status) (is_stuck settings now r)
          (handle_stuck settings now workers.condor r) (dispatch settings now workers r r.status)
          (unstick-Moves workers.condor r.request_name r.status) (dispatch-Moves r.status idle)
