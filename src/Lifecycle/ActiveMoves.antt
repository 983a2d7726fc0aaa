-- ===== src/Lifecycle/ActiveMoves.antt =====
-- What a cycle of an active request does to the states of the requests.
use mathlib.Core.Path.{subst}
use condora.Base.{
  ℕ, String, Bool, true, false, List, map, Option, none, some, ◌≡◌, refl, sym, ◌==◌, ◌||◌, nat_eq,
}
use condora.Enums.{RequestStatus, DagStatus}
use condora.Rows.{WorkflowRow, DagRow, BlockRow}
use condora.Repository.{update_dag, update_workflow, update_request, update_processing_block}
use condora.Effects.{
  CondorCall, Condor, Answer, answer, unreachable, State, M, update, perform, send,
}
use condora.Effects.Maintains.{Maintains, keeps_rules, if-Maintains}
use condora.Monitor.{NodeSummary}
use condora.Monitor.Poll.{
  Monitor, HeldJob, write_file, write_sub_file, raise_memory, held_oom_jobs, recover_job,
  recover_jobs, recover_held, handle_held_oom_jobs, poll_shown, poll_alive, end_dag, end_with,
  handle_dag_completion, poll_job, poll_answer, poll_dag, display_summary, status_summary,
  final_status, final_summary,
}
use condora.Output.Rucio.{set_block, remember}
use condora.Output.Rules.{Rules}
use condora.Lifecycle.Transitions.{transition}
use condora.Lifecycle.View.{View, Keeps, views, move_view, map-update_where}

-- The states after some transitions of the named request, each to a status that an active request
-- may take.
abbrev pub is_target : RequestStatus → Bool
is_target RequestStatus.completed = true
is_target RequestStatus.queued = true
is_target RequestStatus.held = true
is_target RequestStatus.resubmitting = true
is_target _ = false

pub data Run (now : ℕ) (name : String) (before : List View) : List View → Type 0 where
  start : Run now name before before
  step :
      {vs : List View} (to : RequestStatus)
      → is_target to ≡ true
      → Run now name before vs
      → Run now name before (map (move_view now name to) vs)

module _ (now : ℕ) (name : String) (before : List View) where
  abbrev pub HasRun : State → Type 0
  HasRun s = Run now name before (views s)

  pub transition-Maintains :
      (to : RequestStatus) → is_target to ≡ true → Maintains HasRun (transition now name to)
  unfolding transition update_request
  transition-Maintains to target s ok =
      subst (Run now name before) (sym (map-update_where now name to s.db.requests))
        (step to target ok)

  pub completed-Maintains : Maintains HasRun (transition now name RequestStatus.completed)
  completed-Maintains = transition-Maintains RequestStatus.completed refl

  pub queued-Maintains : Maintains HasRun (transition now name RequestStatus.queued)
  queued-Maintains = transition-Maintains RequestStatus.queued refl

  pub held-Maintains : Maintains HasRun (transition now name RequestStatus.held)
  held-Maintains = transition-Maintains RequestStatus.held refl

  pub resubmitting-Maintains : Maintains HasRun (transition now name RequestStatus.resubmitting)
  resubmitting-Maintains = transition-Maintains RequestStatus.resubmitting refl

  -- What leaves the views as they are.
  pub Keeps-Maintains : {A : Type 0} (m : M A) → Keeps m → Maintains HasRun m
  Keeps-Maintains m h s ok = subst (Run now name before) (sym (h s)) ok

  pub update_dag-Maintains :
      (dag_id : ℕ) (f : DagRow → DagRow) → Maintains HasRun (update (update_dag dag_id f))
  unfolding update_dag
  update_dag-Maintains dag_id f s ok = ok

  pub update_workflow-Maintains :
      (workflow_id : ℕ) (f : WorkflowRow → WorkflowRow)
      → Maintains HasRun (update (update_workflow workflow_id f))
  unfolding update_workflow
  update_workflow-Maintains workflow_id f s ok = ok

  pub perform-Maintains :
      (condor : Condor) (call : CondorCall) → Maintains HasRun (perform condor call)
  unfolding perform
  perform-Maintains condor call s ok = ok

  pub set_block-Maintains :
      (block : BlockRow) (values : BlockRow → BlockRow) → Maintains HasRun (set_block block values)
  unfolding set_block update_processing_block
  set_block-Maintains block values s ok = ok

  pub HasRun-rules : Rules HasRun
  HasRun-rules = record {
    sends = λ services call s ok. unfold send in ok;
    remembers = λ block rse s ok. unfold remember in ok;
    fails = λ block now' error attempts. set_block-Maintains block _;
    archives = λ block rule. set_block-Maintains block _;
    consolidates = λ block rule. set_block-Maintains block _;
    reconsolidates = λ block rule. set_block-Maintains block _;
    settles = λ block. set_block-Maintains block _;
    completes = λ block. set_block-Maintains block _;
    opens = λ block name'. set_block-Maintains block _;
    protects = λ block rule_ids. set_block-Maintains block _;
    invalidates = λ block. set_block-Maintains block _;
  }

  pub ruleset run_rules = (
    keeps_rules, completed-Maintains, queued-Maintains, held-Maintains, resubmitting-Maintains,
    update_dag-Maintains, update_workflow-Maintains, perform-Maintains,
  )

  module _ (monitor : Monitor) where
    write_file-Maintains : (call : CondorCall) → Maintains HasRun (write_file monitor call)
    unfolding write_file
    write_file-Maintains call s ok = ok

    raise_memory-Maintains :
        (job : HeldJob) (new_mem : Option ℕ) → Maintains HasRun (raise_memory monitor job new_mem)
    unfolding raise_memory write_sub_file
    raise_memory-Maintains job none = search run_rules
    raise_memory-Maintains job (some new_mem) = search (run_rules, write_file-Maintains)

    recover_job-Maintains : (job : HeldJob) → Maintains HasRun (recover_job monitor job)
    unfolding recover_job
    recover_job-Maintains job = search (run_rules, raise_memory-Maintains)

    recover_jobs-Maintains :
        (held : Answer (List HeldJob)) → Maintains HasRun (recover_jobs monitor held)
    unfolding recover_jobs
    recover_jobs-Maintains unreachable = search run_rules
    recover_jobs-Maintains (answer held) = search (run_rules, recover_job-Maintains)

    recover_held-Maintains :
        (dag : DagRow) (cluster_id : ℕ) → Maintains HasRun (recover_held monitor dag cluster_id)
    unfolding recover_held
    recover_held-Maintains dag cluster_id s =
        recover_jobs-Maintains (monitor.scheduler.held_jobs s.calls cluster_id dag.schedd_name) s

    held_oom_jobs-Maintains :
        (dag : DagRow) (summary : NodeSummary) (cluster_id : Option ℕ)
        → Maintains HasRun (held_oom_jobs monitor dag summary cluster_id)
    unfolding held_oom_jobs
    held_oom_jobs-Maintains dag summary none = search run_rules
    held_oom_jobs-Maintains dag summary (some cluster_id) =
        search (run_rules, recover_held-Maintains)

    end_with-Maintains :
        (dag : DagRow) (status : Option DagStatus) → Maintains HasRun (end_with monitor dag status)
    unfolding end_with end_dag
    end_with-Maintains dag none = search run_rules
    end_with-Maintains dag (some status) = search run_rules

    poll_shown-Maintains :
        (dag : DagRow) (shown : NodeSummary) → Maintains HasRun (poll_shown monitor dag shown)
    unfolding poll_shown handle_held_oom_jobs
    poll_shown-Maintains dag shown = search (run_rules, held_oom_jobs-Maintains)

    poll_job-Maintains :
        (dag : DagRow) (status : Option ℕ) → Maintains HasRun (poll_job monitor dag status)
    unfolding poll_job handle_dag_completion poll_alive
    poll_job-Maintains dag none = search (run_rules, end_with-Maintains)
    poll_job-Maintains dag (some status) =
        if-Maintains HasRun (status == 3 || status == 4) (handle_dag_completion monitor dag)
          (poll_alive monitor dag)
          (end_with-Maintains dag (final_status (final_summary monitor dag)))
          (λ s.
            poll_shown-Maintains dag (display_summary monitor dag (status_summary monitor dag) s) s)

    poll_answer-Maintains :
        (dag : DagRow) (status : Answer (Option ℕ))
        → Maintains HasRun (poll_answer monitor dag status)
    unfolding poll_answer
    poll_answer-Maintains dag unreachable = search run_rules
    poll_answer-Maintains dag (answer status) = poll_job-Maintains dag status

    pub poll_dag-Maintains : (dag : DagRow) → Maintains HasRun (poll_dag monitor dag)
    unfolding poll_dag
    poll_dag-Maintains dag s =
        poll_answer-Maintains dag
          (monitor.scheduler.job_status s.calls dag.schedd_name dag.dagman_cluster_id) s
