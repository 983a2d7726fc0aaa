-- ===== src/Api/Serve.antt =====
-- What the endpoints of src/condora/api/requests.py answer and do.
use mathlib.Core.Path.{subst}
use condora.Base.{
  ℕ, String, Option, none, some, ◌≡◌, inl, inr, refl, sym, Option-cases, string_eq, if◌then◌else◌,
}
use condora.Enums.{RequestStatus}
use condora.Rows.{RequestRow}
use condora.Repository.{get_request, update_request}
use condora.Effects.{Condor, State, return, ◌>>=◌, ◌>>◌, pure, query}
use condora.Lifecycle.Transitions.{transition}
use condora.Lifecycle.View.{map-update_where}
use condora.Api.{
  http_exception, shown, changed, is_stoppable, is_abortable, is_releasable, release_target,
  is_stopping, may_fail, admitting, mark_failing, abort_request, begin_stop, stop_request,
  release_request, fail_now, fail_request_endpoint,
}
use condora.Api.Outcome.{
  Endpoint, abort, release, fail, stop, serve, outcome, outcome_of, IsOutcome, then_moves,
  begin_stop-moves, fail_now-moves, mark_failing-stays,
}

module _ (condor : Option Condor) (now : ℕ) (name : String) (s : State) (r : RequestRow) where
  -- By the status: each line of the table.

  abort-outcome :
      (status : RequestStatus)
      → IsOutcome (outcome abort status) now name s (
          (if is_abortable status
              then (transition now name RequestStatus.aborted >>= λ _.
                  query (get_request name) >>= λ row. pure (shown row))
              else pure (http_exception 400))
            s)
  unfolding transition update_request
  abort-outcome RequestStatus.completed = refl
  abort-outcome RequestStatus.failed = refl
  abort-outcome RequestStatus.aborted = refl
  abort-outcome _ = (refl, map-update_where now name RequestStatus.aborted s.db.requests)

  release-outcome :
      (status : RequestStatus)
      → IsOutcome (outcome release status) now name s (
          (if is_releasable status
              then (transition now name (release_target status) >>= λ _.
                  pure (changed status (release_target status)))
              else pure (http_exception 400))
            s)
  release-outcome RequestStatus.held =
      then_moves now name RequestStatus.queued (changed RequestStatus.held RequestStatus.queued) s s
        refl refl
  release-outcome RequestStatus.paused =
      then_moves now name RequestStatus.resubmitting
        (changed RequestStatus.paused RequestStatus.resubmitting) s s refl refl
  release-outcome _ = refl

  fail-outcome :
      (status : RequestStatus)
      → IsOutcome (outcome fail status) now name s (
          (if may_fail status
              then if is_stoppable status
                then begin_stop condor now "FAIL: operator-initiated" name r
                else if is_stopping status
                then (mark_failing name >> pure (changed r.status RequestStatus.stopping))
                else fail_now condor now name r
              else pure (http_exception 400))
            s)
  fail-outcome RequestStatus.active =
      begin_stop-moves condor now name s r "FAIL: operator-initiated"
  fail-outcome RequestStatus.pilot_running =
      begin_stop-moves condor now name s r "FAIL: operator-initiated"
  fail-outcome RequestStatus.stopping = mark_failing-stays condor now name s r
  fail-outcome RequestStatus.held = fail_now-moves condor now name s r
  fail-outcome RequestStatus.partial = fail_now-moves condor now name s r
  fail-outcome RequestStatus.paused = fail_now-moves condor now name s r
  fail-outcome _ = refl

  stop-outcome :
      (reason : String) (status : RequestStatus)
      → IsOutcome (outcome (stop reason) status) now name s (
          (if is_stoppable status
              then begin_stop condor now reason name r
              else pure (http_exception 400))
            s)
  stop-outcome reason RequestStatus.active = begin_stop-moves condor now name s r reason
  stop-outcome reason RequestStatus.pilot_running = begin_stop-moves condor now name s r reason
  stop-outcome reason _ = refl

  found-outcome :
      (endpoint : Endpoint)
      → get_request name s.db ≡ some r
      → IsOutcome (outcome endpoint r.status) now name s (serve endpoint condor now name s)
  unfolding serve abort_request release_request fail_request_endpoint stop_request admitting
  found-outcome abort found = rw found (abort-outcome r.status)
  found-outcome release found = rw found (release-outcome r.status)
  found-outcome fail found = rw found (fail-outcome r.status)
  found-outcome (stop reason) found = rw found (stop-outcome reason r.status)

missing-outcome :
    (endpoint : Endpoint) (condor : Option Condor) (now : ℕ) (name : String) (s : State)
    → get_request name s.db ≡ none
    → serve endpoint condor now name s ≡ (return (http_exception 404), s)
unfolding serve abort_request release_request fail_request_endpoint stop_request admitting
missing-outcome abort condor now name s missing = rw missing refl
missing-outcome release condor now name s missing = rw missing refl
missing-outcome fail condor now name s missing = rw missing refl
missing-outcome (stop reason) condor now name s missing = rw missing refl

-- The endpoints of the operator follow the table `outcome`, whatever the pool answers: a request that
-- is not there gives 404 and a status that does not admit the action gives 400, and then nothing
-- changes; otherwise the call succeeds, and the named request makes the one transition of the table,
-- which its history records, or stays, while the states of the others stay.
pub serve-IsOutcome :
    (endpoint : Endpoint) (condor : Option Condor) (now : ℕ) (name : String) (s : State)
    → IsOutcome
        (outcome_of endpoint (get_request name s.db))
        now
        name
        s
        (serve endpoint condor now name s)
serve-IsOutcome endpoint condor now name s = elim (Option-cases (get_request name s.db)) [
  | inl missing ↦ rw missing (missing-outcome endpoint condor now name s missing)
  | inr (r, found) ↦
      subst (λ o. IsOutcome (outcome_of endpoint o) now name s (serve endpoint condor now name s))
        (sym found) (found-outcome condor now name s r endpoint found)
]
