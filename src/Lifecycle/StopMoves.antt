-- ===== src/Lifecycle/StopMoves.antt =====
-- Which transitions the parts of a clean stop make.
use condora.Base.{
  arith, ℕ, String, Bool, true, false, List, [], ◌∷◌, none, some, ◌≡◌, inl, inr, not, ◌&&◌, ◌||◌,
  is_empty, refl, if◌then◌else◌,
}
use condora.Enums.{RequestStatus, WorkflowStatus, DagStatus, is_settled}
use condora.Rows.{WorkflowRow, DagRow, BlockRow}
use condora.Repository.{
  get_request, get_workflow_by_request, get_active_dags_for_workflow, update_workflow, update_dag,
  update_request, list_dags, get_processing_blocks,
}
use condora.Effects.{
  Condor, M, done, update, query, ◌>>=◌, CondorCall, remove_job, try_quietly, perform, job_alive,
  for_each,
}
use condora.Lifecycle.Transitions.{transition}
use condora.Lifecycle.Stop.{
  is_fail_requested, is_pilot_running, head_dag, if_live, with_head, is_none, head_fails,
  request_stop, begin_stopping, stop_dags, stop_pilot, stop_workflow, initiate_clean_stop,
  check_stopped, remove_children, finish_stop, stop_progress, handle_stopping, fail_outputs,
  fail_dag, fail_block, mark_stopped,
}
use condora.Lifecycle.View.{
  Keeps, Moves, bind-Keeps, bind-Moves, perform-Keeps, job_alive-Keeps, for_each-Keeps,
  map-update_where, views, transition-Moves, if-Keeps, if-Moves, option-Moves,
}

fail_dag-Keeps : (d : DagRow) → Keeps (fail_dag d)
unfolding fail_dag
fail_dag-Keeps d s =
    elim (is_settled d.status)
      as (λ b.
        views
          ((if b
              then done
              else update (update_dag d.id (λ d'. record d' { status = DagStatus.failed })))
            s).1
        ≡ views s) [ true ↦ refl | false ↦ refl ]

fail_block-Keeps : (b : BlockRow) → Keeps (fail_block b)
unfolding fail_block
fail_block-Keeps b s = ground arith

fail_outputs-Keeps : (workflow_id : ℕ) → Keeps (fail_outputs workflow_id)
unfolding fail_outputs
fail_outputs-Keeps workflow_id s =
    bind-Keeps (for_each (list_dags workflow_id s.db) fail_dag)
      (λ _. query (get_processing_blocks workflow_id) >>= λ blocks. for_each blocks fail_block)
      (for_each-Keeps (list_dags workflow_id s.db) fail_dag fail_dag-Keeps)
      (λ _ s'.
        for_each-Keeps (get_processing_blocks workflow_id s'.db) fail_block fail_block-Keeps s')
      s

module _ (condor : Condor) (now : ℕ) (name : String) (E : RequestStatus → Type 0) where
  begin_stopping-Moves :
      (w : ℕ) → E RequestStatus.stopping → Moves now name E (begin_stopping condor now name w)
  unfolding begin_stopping transition update_request
  begin_stopping-Moves w edge s = inr (
    RequestStatus.stopping,
    (edge, map-update_where now name RequestStatus.stopping s.db.requests),
  )

  request_stop-Keeps : (reason : String) (d : DagRow) → Keeps (request_stop condor now reason d)
  unfolding request_stop
  request_stop-Keeps reason d =
      bind-Keeps (perform condor (remove_job d.schedd_name d.dagman_cluster_id))
        (λ _. update (
          update_dag d.id (λ d'. record d' { stop_requested_at = some now; stop_reason = reason })))
        (perform-Keeps condor (remove_job d.schedd_name d.dagman_cluster_id)) (λ _ s. refl)

  stop_dags-Moves :
      (reason : String) (w : WorkflowRow)
      → E RequestStatus.stopping
      → Moves now name E (stop_dags condor now name reason w)
  unfolding stop_dags
  stop_dags-Moves reason w edge s =
      let active = get_active_dags_for_workflow w.id s.db in
      let dags = if is_empty active then if_live (head_dag w s.db) else active in
      if-Moves now name E (is_empty dags) done
        (for_each dags (request_stop condor now reason) >>= λ _.
          begin_stopping condor now name w.id)
        (λ s'. inl refl)
        (bind-Moves now name E (for_each dags (request_stop condor now reason))
          (λ _. begin_stopping condor now name w.id)
          (for_each-Keeps dags (request_stop condor now reason) (request_stop-Keeps reason))
          (λ _. begin_stopping-Moves w.id edge))
        s

  stop_pilot-Moves :
      (w : WorkflowRow) (cluster_id : ℕ)
      → E RequestStatus.stopping
      → Moves now name E (stop_pilot condor now name w cluster_id)
  unfolding stop_pilot
  stop_pilot-Moves w cluster_id edge =
      bind-Moves now name E (perform condor (remove_job w.pilot_schedd (some cluster_id)))
        (λ _. begin_stopping condor now name w.id)
        (perform-Keeps condor (remove_job w.pilot_schedd (some cluster_id)))
        (λ _. begin_stopping-Moves w.id edge)

  stop_workflow-Moves :
      (reason : String) (status : RequestStatus) (w : WorkflowRow)
      → E RequestStatus.stopping
      → Moves now name E (stop_workflow condor now name reason status w)
  unfolding stop_workflow
  stop_workflow-Moves reason status w edge =
      option-Moves now name E w.pilot_cluster_id (stop_dags condor now name reason w)
        (λ c.
          if is_pilot_running status
          then stop_pilot condor now name w c
          else stop_dags condor now name reason w)
        (stop_dags-Moves reason w edge)
        (λ c.
          if-Moves now name E (is_pilot_running status) (stop_pilot condor now name w c)
            (stop_dags condor now name reason w) (stop_pilot-Moves w c edge)
            (stop_dags-Moves reason w edge))

  -- A clean stop moves the request to STOPPING, or leaves it.
  pub initiate_clean_stop-Moves :
      (reason : String)
      → E RequestStatus.stopping
      → Moves now name E (initiate_clean_stop condor now name reason)
  unfolding initiate_clean_stop
  initiate_clean_stop-Moves reason edge s =
      option-Moves now name E (get_request name s.db) done
        (λ r. elim (get_workflow_by_request name s.db) [
          | none ↦ done
          | some w ↦ stop_workflow condor now name reason r.status w
        ])
        (λ s'. inl refl)
        (λ r.
          option-Moves now name E (get_workflow_by_request name s.db) done
            (λ w. stop_workflow condor now name reason r.status w) (λ s'. inl refl)
            (λ w. stop_workflow-Moves reason r.status w edge))
        s

  quiet_removal-Keeps : (call : CondorCall) → Keeps (try_quietly (perform condor call))
  unfolding perform
  quiet_removal-Keeps call s = refl

  check_stopped-Keeps :
      (dags : List DagRow) (all_stopped fails : Bool)
      → Keeps (check_stopped condor now dags all_stopped fails)
  unfolding check_stopped
  check_stopped-Keeps [] all_stopped fails s = refl
  check_stopped-Keeps (d ∷ dags) all_stopped fails s =
      let removal = try_quietly (perform condor (remove_job d.schedd_name d.dagman_cluster_id)) in
      let rest : Bool → M (Bool × Bool) = λ alive.
        check_stopped condor now dags (all_stopped && not alive)
          (if alive then fails else (fails || is_fail_requested d)) in
      bind-Keeps (job_alive condor d.schedd_name d.dagman_cluster_id)
        (λ alive. (if alive then removal else done) >>= λ _. rest alive)
        (job_alive-Keeps condor d.schedd_name d.dagman_cluster_id)
        (λ alive.
          bind-Keeps (if alive then removal else done) (λ _. rest alive)
            (if-Keeps alive removal done
              (quiet_removal-Keeps (remove_job d.schedd_name d.dagman_cluster_id)) (λ s'. refl))
            (λ _.
              check_stopped-Keeps dags (all_stopped && not alive)
                (if alive then fails else (fails || is_fail_requested d))))
        s

  finish_stop-Moves :
      (w : WorkflowRow) (dags : List DagRow) (fails : Bool)
      → E RequestStatus.paused
      → E RequestStatus.failed
      → Moves now name E (finish_stop condor now name w dags fails)
  unfolding finish_stop transition update_request mark_stopped
  finish_stop-Moves w dags true paused failed =
      bind-Moves now name E (fail_outputs w.id)
        (λ _.
          update (update_workflow w.id (λ w'. record w' { status = WorkflowStatus.failed }))
          >>= λ _. transition now name RequestStatus.failed)
        (fail_outputs-Keeps w.id)
        (λ _ s. inr (
          RequestStatus.failed,
          (failed, map-update_where now name RequestStatus.failed s.db.requests),
        ))
  finish_stop-Moves w dags false paused failed =
      bind-Moves now name E (for_each dags mark_stopped)
        (λ _. transition now name RequestStatus.paused)
        (for_each-Keeps dags mark_stopped (λ d s. refl))
        (λ _. transition-Moves now name E RequestStatus.paused paused)

  remove_children-Keeps : (d : DagRow) → Keeps (remove_children condor now d)
  unfolding remove_children perform
  remove_children-Keeps d s = refl

  stop_progress-Moves :
      (w : WorkflowRow)
      → E RequestStatus.paused
      → E RequestStatus.failed
      → Moves now name E (stop_progress condor now name w)
  unfolding stop_progress
  stop_progress-Moves w paused failed s =
      let head = head_dag w s.db in
      let dags = with_head (get_active_dags_for_workflow w.id s.db) head in
      let finish : Bool → M (Unit {0}) = λ fails. finish_stop condor now name w dags fails in
      let clean : Bool → M (Unit {0}) =
        λ fails. for_each dags (remove_children condor now) >>= λ _. finish fails in
      if-Moves now name E (is_empty dags && is_none head) done
        (check_stopped condor now dags true false >>= λ x.
          if not x.0 then done else clean (x.1 || head_fails head))
        (λ s'. inl refl)
        (bind-Moves now name E (check_stopped condor now dags true false)
          (λ x. if not x.0 then done else clean (x.1 || head_fails head))
          (check_stopped-Keeps dags true false)
          (λ x.
            if-Moves now name E (not x.0) done (clean (x.1 || head_fails head)) (λ s'. inl refl)
              (bind-Moves now name E (for_each dags (remove_children condor now))
                (λ _. finish (x.1 || head_fails head))
                (for_each-Keeps dags (remove_children condor now) remove_children-Keeps)
                (λ _. finish_stop-Moves w dags (x.1 || head_fails head) paused failed))))
        s

  -- A stop that is over moves the request to PAUSED or FAILED; until then it stays.
  pub handle_stopping-Moves :
      E RequestStatus.paused
      → E RequestStatus.failed
      → Moves now name E (handle_stopping condor now name)
  unfolding handle_stopping
  handle_stopping-Moves paused failed s =
      option-Moves now name E (get_workflow_by_request name s.db) done
        (stop_progress condor now name) (λ s'. inl refl) (λ w. stop_progress-Moves w paused failed)
        s
