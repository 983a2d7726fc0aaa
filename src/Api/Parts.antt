-- ===== src/Api/Parts.antt =====
-- The parts of the endpoints of src/condora/api/requests.py that leave the states of the requests.
use condora.Base.{ℕ, String, Bool, true, false, Option, none, some, refl, string_eq, if◌then◌else◌}
use condora.Enums.{WorkflowStatus, is_live}
use condora.Rows.{WorkflowRow}
use condora.Repository.{get_workflow_by_request, get_dag, update_dag, update_workflow}
use condora.Effects.{remove_job, Condor, M, ◌>>=◌, ◌>>◌, done, query, update, try_quietly, perform}
use condora.Lifecycle.Stop.{fail_outputs}
use condora.Lifecycle.Actions.{Runs, bind-Runs, fail_outputs-Runs}
use condora.Api.{on_head_dag, mark_failing, remove_live, stop_head, fail_workflow_now}

if-Runs : (b : Bool) (m : M (Unit {0})) → Runs m → Runs (if b then m else done)
unfolding Runs
if-Runs true m h s = h s
if-Runs false m h s = (refl, refl)

pub option-Runs :
    {A : Type 0} (o : Option A) (f : A → M (Unit {0}))
    → ((a : A) → Runs (f a))
    → Runs (elim o [ none ↦ done | some a ↦ f a ])
unfolding Runs
option-Runs none f h s = (refl, refl)
option-Runs (some a) f h s = h a s

remove_live-Runs : (condor : Option Condor) (now dag_id : ℕ) → Runs (remove_live condor now dag_id)
unfolding remove_live perform Runs
remove_live-Runs condor now dag_id s =
    option-Runs (get_dag dag_id s.db)
      (λ d.
        if is_live d.status
        then elim condor [
          | none ↦ done
          | some c ↦ try_quietly (perform c (remove_job d.schedd_name d.dagman_cluster_id))
        ]
        else done)
      (λ d.
        if-Runs (is_live d.status)
          (elim condor [
            | none ↦ done
            | some c ↦ try_quietly (perform c (remove_job d.schedd_name d.dagman_cluster_id))
          ])
          (option-Runs condor
            (λ c. try_quietly (perform c (remove_job d.schedd_name d.dagman_cluster_id)))
            (λ c s'. (refl, refl))))
      s

on_head_dag-Runs :
    (name : String) (body : ℕ → M (Unit {0}))
    → ((dag_id : ℕ) → Runs (body dag_id))
    → Runs (on_head_dag name body)
unfolding on_head_dag Runs
on_head_dag-Runs name body h s =
    option-Runs (get_workflow_by_request name s.db)
      (λ w. elim w.dag_id [ none ↦ done | some dag_id ↦ body dag_id ])
      (λ w. option-Runs w.dag_id body h) s

pub mark_failing-Runs : (name : String) → Runs (mark_failing name)
unfolding mark_failing Runs
mark_failing-Runs name s =
    on_head_dag-Runs name
      (λ dag_id. query (get_dag dag_id) >>= λ dag. elim dag [
        | none ↦ done
        | some d ↦
            update
              (update_dag dag_id (λ d'. record d' { stop_reason = "FAIL: operator-initiated" }))
      ])
      (λ dag_id s'.
        option-Runs (get_dag dag_id s'.db)
          (λ d.
            update
              (update_dag dag_id (λ d'. record d' { stop_reason = "FAIL: operator-initiated" })))
          (λ d s''. (refl, refl)) s')
      s

pub stop_head-Runs :
    (condor : Option Condor) (now : ℕ) (reason name : String)
    → Runs (stop_head condor now reason name)
unfolding stop_head Runs
stop_head-Runs condor now reason name s =
    on_head_dag-Runs name
      (λ dag_id.
        remove_live condor now dag_id
        >> update (
            update_dag dag_id
              (λ d. record d { stop_requested_at = some now; stop_reason = reason })))
      (λ dag_id.
        bind-Runs (remove_live condor now dag_id)
          (update (
            update_dag dag_id
              (λ d. record d { stop_requested_at = some now; stop_reason = reason })))
          (remove_live-Runs condor now dag_id) (λ s'. (refl, refl)))
      s

pub fail_workflow_now-Runs :
    (condor : Option Condor) (now : ℕ) (w : WorkflowRow) → Runs (fail_workflow_now condor now w)
unfolding fail_workflow_now Runs
fail_workflow_now-Runs condor now w =
    let finish : M (Unit {0}) =
      fail_outputs w.id
      >> update (update_workflow w.id (λ w'. record w' { status = WorkflowStatus.failed })) in
    bind-Runs (elim w.dag_id [ none ↦ done | some dag_id ↦ remove_live condor now dag_id ]) finish
      (option-Runs w.dag_id (remove_live condor now) (remove_live-Runs condor now))
      (bind-Runs (fail_outputs w.id)
        (update (update_workflow w.id (λ w'. record w' { status = WorkflowStatus.failed })))
        (fail_outputs-Runs w.id) (λ s. (refl, refl)))
