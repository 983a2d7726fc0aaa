-- ===== src/Api/Outcome.antt =====
-- What is to become of a request under an endpoint of src/condora/api/requests.py, status by status,
-- and how the bodies of the endpoints end.
use mathlib.Core.Path.{subst}
use condora.Base.{ℕ, String, map, Option, none, some, ◌≡◌, refl, ap, sym, ◌∙◌, string_eq}
use condora.Enums.{RequestStatus}
use condora.Rows.{RequestRow}
use condora.Repository.{get_workflow_by_request, update_request}
use condora.Effects.{Condor, State, Result, return, raise, M, and_then, ◌>>=◌, ◌>>◌, pure, done}
use condora.Lifecycle.Transitions.{transition}
use condora.Lifecycle.Actions.{Runs}
use condora.Api.Parts.{option-Runs, mark_failing-Runs, stop_head-Runs, fail_workflow_now-Runs}
use condora.Lifecycle.View.{views, move_view, map-update_where}
use condora.Api.{
  Response, http_exception, changed, mark_failing, stop_head, abort_request, begin_stop,
  stop_request, release_request, fail_workflow_now, fail_now, fail_request_endpoint,
}

pub data Endpoint : Type 0 where
  abort release fail : Endpoint
  stop : String → Endpoint

unfoldable pub serve : Endpoint → Option Condor → ℕ → String → M Response
unfolding abort_request release_request fail_request_endpoint stop_request
serve abort condor now name = abort_request condor now name
serve release condor now name = release_request condor now name
serve fail condor now name = fail_request_endpoint condor now name
serve (stop reason) condor now name = stop_request condor now reason name

pub data Outcome : Type 0 where
  rejected : ℕ → Outcome
  stays : Outcome
  moves : RequestStatus → Outcome

-- What is to become of a request in a status.
abbrev pub outcome : Endpoint → RequestStatus → Outcome
outcome abort RequestStatus.completed = rejected 400
outcome abort RequestStatus.failed = rejected 400
outcome abort RequestStatus.aborted = rejected 400
outcome abort _ = moves RequestStatus.aborted
outcome release RequestStatus.held = moves RequestStatus.queued
outcome release RequestStatus.paused = moves RequestStatus.resubmitting
outcome release _ = rejected 400
outcome fail RequestStatus.active = moves RequestStatus.stopping
outcome fail RequestStatus.pilot_running = moves RequestStatus.stopping
outcome fail RequestStatus.stopping = stays
outcome fail RequestStatus.held = moves RequestStatus.failed
outcome fail RequestStatus.partial = moves RequestStatus.failed
outcome fail RequestStatus.paused = moves RequestStatus.failed
outcome fail _ = rejected 400
outcome (stop reason) RequestStatus.active = moves RequestStatus.stopping
outcome (stop reason) RequestStatus.pilot_running = moves RequestStatus.stopping
outcome (stop reason) _ = rejected 400

abbrev pub outcome_of : Endpoint → Option RequestRow → Outcome
outcome_of endpoint none = rejected 404
outcome_of endpoint (some r) = outcome endpoint r.status

abbrev pub status_code : Result Response → ℕ
status_code (return (http_exception code)) = code
status_code (return _) = 200
status_code (raise e) = 500

-- A rejection leaves everything; else the call succeeds, and the named request stays or makes
-- one transition, and the others stay.
abbrev pub IsOutcome : Outcome → ℕ → String → State → Result Response × State → Type 0
IsOutcome (rejected code) now name s after = after ≡ (return (http_exception code), s)
IsOutcome stays now name s after = (status_code after.0 ≡ 200) × (views after.1 ≡ views s)
IsOutcome (moves to) now name s after =
    (status_code after.0 ≡ 200) × (views after.1 ≡ map (move_view now name to) (views s))

-- The endings.

-- After a part that leaves the states, the rest goes on.
after_part :
    (m : M (Unit {0})) (rest : M Response) (o : Outcome) (now : ℕ) (name : String) (s : State)
    → Runs m
    → ((s' : State) → views s' ≡ views s → IsOutcome o now name s (rest s'))
    → IsOutcome o now name s ((m >>= λ _. rest) s)
unfolding Runs
after_part m rest o now name s run h =
    let next : and_then (m s).0 (λ _. rest) (m s).1 ≡ rest (m s).1 = rw (run s).0 refl in
    subst (IsOutcome o now name s) (sym next) (h (m s).1 (run s).1)

-- A transition after such a part.
pub then_moves :
    (now : ℕ) (name : String) (to : RequestStatus) (response : Response) (s s' : State)
    → status_code (return response) ≡ 200
    → views s' ≡ views s
    → IsOutcome (moves to) now name s ((transition now name to >>= λ _. pure response) s')
unfolding transition update_request
then_moves now name to response s s' ok same =
    (ok, map-update_where now name to s'.db.requests ∙ ap (map (move_view now name to)) same)

module _ (condor : Option Condor) (now : ℕ) (name : String) (s : State) (r : RequestRow) where
  pub begin_stop-moves :
      (reason : String)
      → IsOutcome (moves RequestStatus.stopping) now name s (begin_stop condor now reason name r s)
  unfolding begin_stop
  begin_stop-moves reason =
      let response = changed r.status RequestStatus.stopping in
      after_part (stop_head condor now reason name)
        (transition now name RequestStatus.stopping >>= λ _. pure response)
        (moves RequestStatus.stopping) now name s (stop_head-Runs condor now reason name)
        (λ s' same. then_moves now name RequestStatus.stopping response s s' refl same)

  pub fail_now-moves :
      IsOutcome (moves RequestStatus.failed) now name s (fail_now condor now name r s)
  unfolding fail_now
  fail_now-moves =
      let workflow = get_workflow_by_request name s.db in
      let response = changed r.status RequestStatus.failed in
      after_part (elim workflow [ none ↦ done | some w ↦ fail_workflow_now condor now w ])
        (transition now name RequestStatus.failed >>= λ _. pure response)
        (moves RequestStatus.failed) now name s
        (option-Runs workflow (fail_workflow_now condor now) (fail_workflow_now-Runs condor now))
        (λ s' same. then_moves now name RequestStatus.failed response s s' refl same)

  pub mark_failing-stays :
      IsOutcome stays now name s
        ((mark_failing name >> pure (changed r.status RequestStatus.stopping)) s)
  mark_failing-stays =
      after_part (mark_failing name) (pure (changed r.status RequestStatus.stopping)) stays now name
        s (mark_failing-Runs name) (λ s' same. (refl, same))
