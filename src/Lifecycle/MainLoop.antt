-- ===== src/Lifecycle/MainLoop.antt =====
-- `main_loop`: one cycle over the requests that are not terminal. The progress lines, the sleep and
-- the callback are left out; `evaluated` has the names in the order of the log, the last one first.
pub mod Names
pub mod Ends
pub mod Confined
mod Examples
use condora.Base.{
  ℕ, zero, suc, String, List, [], ◌∷◌, Option, none, some, not, select, contains, string_eq,
}
use condora.Rows.{RequestRow}
use condora.Config.{Settings}
use condora.Repository.{Db, get_non_terminal_requests}
use condora.Effects.{Result, return, raise, State, M}
use condora.Lifecycle.Admission.{Disk}
use condora.Lifecycle.Evaluate.{Workers, evaluate_request}
use condora.Lifecycle.Active.{ActiveWork, RoundSettings}
use condora.Lifecycle.Active.Cycle.{handle_active}

pub record Cycle : Type 0 where
  pub evaluated : List String
  pub state : State

-- The requests that are not terminal, without those that failed in this cycle.
unfoldable pub remaining : List String → Db → List RequestRow
unfolding get_non_terminal_requests
remaining failed_names db =
    select (λ r. not (contains r.request_name failed_names)) (get_non_terminal_requests db)

-- What the rest of the loop starts with.
abbrev pub Loop : Type 0
Loop = List String → List String → List RequestRow → State → Option Cycle

-- A commit, or a rollback to the database before the evaluation and a new list of requests. The
-- calls that were made stay made.
unfoldable pub after_evaluation :
    Loop
    → List String
    → List String
    → RequestRow
    → List RequestRow
    → Db
    → Result (Unit {0}) × State
    → Option Cycle
unfolding remaining
after_evaluation loop failed_names evaluated r requests db (return done, after) =
    loop failed_names (r.request_name ∷ evaluated) requests after
after_evaluation loop failed_names evaluated r requests db (raise e, after) =
    loop (r.request_name ∷ failed_names) (r.request_name ∷ evaluated)
      (remaining (r.request_name ∷ failed_names) db) (record after { db = db })

module _ (evaluate : RequestRow → M (Unit {0})) where
  -- `while requests`, with at most so many evaluations.
  unfoldable pub cycle_requests : ℕ → Loop
  unfolding after_evaluation
  cycle_requests fuel failed_names evaluated [] s =
      some (record { evaluated = evaluated; state = s })
  cycle_requests zero failed_names evaluated (r ∷ requests) s = none
  cycle_requests (suc fuel) failed_names evaluated (r ∷ requests) s =
      after_evaluation (cycle_requests fuel) failed_names evaluated r requests s.db (evaluate r s)

  unfoldable pub run_cycle : ℕ → State → Option Cycle
  unfolding get_non_terminal_requests cycle_requests
  run_cycle fuel s = cycle_requests fuel [] [] (get_non_terminal_requests s.db) s

-- `_build_workers`: the components of a cycle.
abbrev pub build_workers :
    ActiveWork → Disk → Option (String → M (Unit {0})) → Settings → RoundSettings → ℕ → Workers
build_workers work disk import_request settings rounds now = record {
  condor = work.condor;
  disk = disk;
  import_request = import_request;
  planner = work.planner;
  handle_active = handle_active work settings rounds now work.monitor;
}
