-- ===== src/Lifecycle/AdmissionMoves.antt =====
-- Which transitions the handlers of queued requests and of pilots make.
use condora.Base.{
  ℕ, String, Bool, true, false, Option, none, some, inl, inr, ◌||◌, is_empty, ltb, leb, refl,
  string_eq, if◌then◌else◌,
}
use condora.Enums.{RequestStatus, WorkflowStatus, DagStatus, is_live}
use condora.Rows.{RequestRow, WorkflowRow, DagRow}
use condora.Config.{Settings}
use condora.Repository.{
  get_workflow_by_request, get_active_dags_for_workflow, update_workflow, update_dag,
  update_request, get_queued_request, count_active_dags,
}
use condora.Effects.{
  CondorCall, pure, submit_dag, Answer, answer, unreachable, Condor, M, ◌>>=◌, done, update, submit,
  ask,
}
use condora.Lifecycle.Transitions.{transition}
use condora.Lifecycle.Stop.{head_dag}
use condora.Lifecycle.Admission.{
  Planner, Disk, is_ready_rescue, use_spool, new_submit_dir, readmit, plan_round, is_spool_lost,
  admit_head, admit, is_behind, handle_queued, finish_pilot, after_poll, poll_pilot,
  handle_pilot_running,
}
use condora.Lifecycle.View.{
  Keeps, Moves, bind-Keeps, bind-Moves, map-update_where, transition-Moves, if-Keeps, if-Moves,
  option-Moves,
}

-- The planner makes no transition.
pub record IsQuiet (planner : Planner) : Type 0 where
  pub plan-Keeps :
      (w : WorkflowRow) (adaptive : Bool) → Keeps (planner.plan_production_dag w adaptive)
  pub pilot-Keeps :
      (w : WorkflowRow) (adaptive : Bool) → Keeps (planner.handle_pilot_completion w adaptive)

submit-Keeps : (condor : Condor) (call : CondorCall) → Keeps (submit condor call)
unfolding submit
submit-Keeps condor call s = refl

module _ (now : ℕ) (name : String) (E : RequestStatus → Type 0) where
  module _ (condor : Condor) (disk : Disk) where
    new_submit_dir-Keeps :
        (spool : Bool) (d : DagRow) (cluster_id : ℕ) (schedd : String)
        → Keeps (new_submit_dir condor disk now spool d cluster_id schedd)
    unfolding new_submit_dir
    new_submit_dir-Keeps false d cluster_id schedd s = refl
    new_submit_dir-Keeps true d cluster_id schedd s =
        bind-Keeps (ask (λ calls. condor.job_iwd calls cluster_id schedd))
          (λ iwd. pure (elim iwd [ none ↦ d.submit_dir | some dir ↦ disk.mounted dir ]))
          (λ s'. refl) (λ _ s'. refl) s

    readmit-Moves :
        (w : WorkflowRow) (d : DagRow)
        → E RequestStatus.active
        → Moves now name E (readmit condor disk now name w d)
    unfolding readmit transition update_request
    readmit-Moves w d edge =
        let spool = use_spool condor disk now w in
        let dag_file = if spool then disk.copy_of d.dag_file_path else d.dag_file_path in
        let call = submit_dag dag_file spool (if spool then disk.drawn_schedd else none) in
        let finish : ℕ × String → String → M (Unit {0}) = λ job dir.
          update (
            update_dag d.id (λ d'. record d' {
              dagman_cluster_id = some job.0;
              schedd_name = some job.1;
              status = DagStatus.submitted;
              submit_dir = dir;
            }))
          >>= λ _.
              update (update_workflow w.id (λ w'. record w' { status = WorkflowStatus.active }))
              >>= λ _. transition now name RequestStatus.active in
        bind-Moves now name E (submit condor call)
          (λ job. new_submit_dir condor disk now spool d job.0 job.1 >>= finish job)
          (submit-Keeps condor call)
          (λ job.
            bind-Moves now name E (new_submit_dir condor disk now spool d job.0 job.1) (finish job)
              (new_submit_dir-Keeps spool d job.0 job.1)
              (λ dir s. inr (
                RequestStatus.active,
                (edge, map-update_where now name RequestStatus.active s.db.requests),
              )))

    module _ (planner : Planner) (quiet : IsQuiet planner) (active : E RequestStatus.active) where
      plan_round-Moves :
          (adaptive : Bool) (w : WorkflowRow)
          → E RequestStatus.completed
          → Moves now name E (plan_round condor disk now planner name adaptive w)
      unfolding plan_round
      plan_round-Moves adaptive w completed =
          let plan =
            planner.plan_production_dag w (if ltb 0 w.current_round then true else adaptive) in
          let finish =
            update (update_workflow w.id (λ w'. record w' { status = WorkflowStatus.completed }))
            >>= λ _. transition now name RequestStatus.completed in
          bind-Moves now name E plan
            (λ dag. elim dag [ none ↦ finish | some d ↦ transition now name RequestStatus.active ])
            (quiet.plan-Keeps w (if ltb 0 w.current_round then true else adaptive))
            (λ dag.
              option-Moves now name E dag finish (λ d. transition now name RequestStatus.active)
                (bind-Moves now name E
                  (update
                    (update_workflow w.id (λ w'. record w' { status = WorkflowStatus.completed })))
                  (λ _. transition now name RequestStatus.completed) (λ s. refl)
                  (λ _. transition-Moves now name E RequestStatus.completed completed))
                (λ d. transition-Moves now name E RequestStatus.active active))

      admit_head-Moves :
          (adaptive : Bool) (w : WorkflowRow) (head : Option DagRow)
          → E RequestStatus.completed
          → Moves now name E (admit_head condor disk now planner name adaptive w head)
      unfolding admit_head
      admit_head-Moves adaptive w none completed = plan_round-Moves adaptive w completed
      admit_head-Moves adaptive w (some d) completed =
          let plan = plan_round condor disk now planner name adaptive w in
          let fail = update (update_dag d.id (λ d'. record d' { status = DagStatus.failed })) in
          if-Moves now name E (is_live d.status) (transition now name RequestStatus.active)
            (if is_ready_rescue d
              then if is_spool_lost condor disk now w d
                then (fail >>= λ _. plan)
                else readmit condor disk now name w d
              else plan)
            (transition-Moves now name E RequestStatus.active active)
            (if-Moves now name E (is_ready_rescue d)
              (if is_spool_lost condor disk now w d
                then (fail >>= λ _. plan)
                else readmit condor disk now name w d)
              plan
              (if-Moves now name E (is_spool_lost condor disk now w d) (fail >>= λ _. plan)
                (readmit condor disk now name w d)
                (bind-Moves now name E fail (λ _. plan) (λ s. refl)
                  (λ _. plan_round-Moves adaptive w completed))
                (readmit-Moves w d active))
              (plan_round-Moves adaptive w completed))

      admit-Moves :
          (adaptive : Bool) (w : WorkflowRow)
          → E RequestStatus.completed
          → Moves now name E (admit condor disk now planner name adaptive w)
      unfolding admit
      admit-Moves adaptive w completed s =
          let head = head_dag w s.db in
          if-Moves now name E (is_empty (get_active_dags_for_workflow w.id s.db))
            (admit_head condor disk now planner name adaptive w head)
            (transition now name RequestStatus.active) (admit_head-Moves adaptive w head completed)
            (transition-Moves now name E RequestStatus.active active) s

      finish_pilot-Moves :
          (adaptive : Bool) (w : WorkflowRow)
          → Moves now name E (finish_pilot condor disk now planner name adaptive w)
      unfolding finish_pilot
      finish_pilot-Moves adaptive w =
          let prepare =
            if disk.has_pilot_metrics w
            then planner.handle_pilot_completion w adaptive
            else (planner.plan_production_dag w adaptive >>= λ _. done) in
          bind-Moves now name E prepare (λ _. transition now name RequestStatus.active)
            (if-Keeps (disk.has_pilot_metrics w) (planner.handle_pilot_completion w adaptive)
              (planner.plan_production_dag w adaptive >>= λ _. done) (quiet.pilot-Keeps w adaptive)
              (bind-Keeps (planner.plan_production_dag w adaptive) (λ _. done)
                (quiet.plan-Keeps w adaptive) (λ _ s. refl)))
            (λ _. transition-Moves now name E RequestStatus.active active)

      after_poll-Moves :
          (adaptive : Bool) (w : WorkflowRow) (a : Answer Bool)
          → Moves now name E (after_poll condor disk now planner name adaptive w a)
      unfolding after_poll
      after_poll-Moves adaptive w unreachable s = inl refl
      after_poll-Moves adaptive w (answer completed) s =
          if-Moves now name E completed (finish_pilot condor disk now planner name adaptive w) done
            (finish_pilot-Moves adaptive w) (λ s'. inl refl) s

      poll_pilot-Moves :
          (adaptive : Bool) (w : WorkflowRow) (cluster_id : ℕ)
          → Moves now name E (poll_pilot condor disk now planner name adaptive w cluster_id)
      unfolding poll_pilot
      poll_pilot-Moves adaptive w cluster_id s =
          after_poll-Moves adaptive w
            (condor.job_completed s.calls w.pilot_schedd (some cluster_id)) s

module _ (now : ℕ) (condor : Condor) (disk : Disk) (planner : Planner) (quiet : IsQuiet planner)
    (E : RequestStatus → Type 0) (active : E RequestStatus.active) where
  -- A queued request goes to ACTIVE, or to COMPLETED where nothing is left to plan.
  pub handle_queued-Moves :
      (settings : Settings) (r : RequestRow)
      → E RequestStatus.completed
      → Moves now r.request_name E (handle_queued condor disk now settings (some planner) r)
  unfolding handle_queued
  handle_queued-Moves settings r completed s =
      let waits =
        leb settings.max_active_dags (count_active_dags s.db)
        || is_behind condor disk now r.request_name (get_queued_request s.db) in
      let name = r.request_name in
      let start : M (Unit {0}) = elim (get_workflow_by_request name s.db) [
        | none ↦ done
        | some w ↦ admit condor disk now planner name r.adaptive w
      ] in
      if-Moves now name E waits done start (λ s'. inl refl)
        (option-Moves now name E (get_workflow_by_request name s.db) done
          (admit condor disk now planner name r.adaptive) (λ s'. inl refl)
          (λ w. admit-Moves now name E condor disk planner quiet active r.adaptive w completed))
        s

  -- A request whose pilot is over goes to ACTIVE.
  pub handle_pilot_running-Moves :
      (r : RequestRow)
      → Moves now r.request_name E (handle_pilot_running condor disk now (some planner) r)
  unfolding handle_pilot_running
  handle_pilot_running-Moves r s =
      let name = r.request_name in
      option-Moves now name E (get_workflow_by_request name s.db) done
        (λ w. elim w.pilot_cluster_id [
          | none ↦ done
          | some cluster_id ↦ poll_pilot condor disk now planner name r.adaptive w cluster_id
        ])
        (λ s'. inl refl)
        (λ w.
          option-Moves now name E w.pilot_cluster_id done
            (poll_pilot condor disk now planner name r.adaptive w) (λ s'. inl refl)
            (poll_pilot-Moves now name E condor disk planner quiet active r.adaptive w))
        s
