-- ===== src/Lifecycle/MainLoop/Examples.antt =====
-- Cycles over small databases.
use condora.Base.{
  ◌+◌, ◌≤◌, inl, inr, Bool-cases, String, true, [], ◌∷◌, none, some, ◌≡◌, refl, ◌==◌, string_eq,
  contains, if◌then◌else◌, arith,
}
use condora.Enums.{RequestStatus, DagStatus}
use condora.Config.{default_settings}
use condora.Rows.{RequestRow}
use condora.Effects.{State, Result, return, raise, value_error, M}
use condora.Samples.{sample_request, sample_state, sample_disk}
use condora.Lifecycle.Evaluate.{evaluate_request}
use condora.Lifecycle.ActiveExamples.{work, work-AreQuietRounds, rounds}
use condora.Lifecycle.MainLoop.{build_workers, run_cycle}
use condora.Lifecycle.MainLoop.Names.{is_waiting}
use condora.Lifecycle.MainLoop.Ends.{Ends, IsConfined, IsKept, run_cycle-Ends}
use condora.Lifecycle.MainLoop.Confined.{run_cycle-evaluates_all}

abbrev named : String → RequestRow
named name = let r = sample_request RequestStatus.queued in record r { request_name = name }

-- Three requests that wait.
abbrev three : State
three =
    let s = sample_state RequestStatus.queued DagStatus.running in
    record s { db = record (s.db) { requests = named "a" ∷ named "b" ∷ named "c" ∷ [] } }

-- The evaluation of the second one writes to the database and then raises.
abbrev second_fails : RequestRow → M (Unit {0})
second_fails r s =
    if r.request_name == "b"
    then (raise value_error, record s { db = record (s.db) { next_id = 0 } })
    else (return tt, record s { db = record (s.db) { next_id = s.db.next_id + 1 } })

-- After the failure the first one is evaluated again, and the write of the second one is gone.
run_cycle_run :
    run_cycle second_fails 12 three
    ≡ some (record {
      evaluated = "c" ∷ "a" ∷ "b" ∷ "a" ∷ [];
      state = record three { db = record (three.db) { next_id = three.db.next_id + 3 } };
    })
unfolding run_cycle
run_cycle_run = refl

second_fails-IsConfined : IsConfined second_fails
second_fails-IsConfined = record {
  names-kept = λ r s. elim (Bool-cases (r.request_name == "b")) [
    | inl second ↦ rw second refl
    | inr other ↦ rw other refl
  ];
  others-wait = λ r s x apart. elim (Bool-cases (r.request_name == "b")) [
    | inl second ↦ rw second refl
    | inr other ↦ rw other refl
  ];
}

second_fails-IsKept : IsKept (λ db. 3 ≤ db.next_id) second_fails
second_fails-IsKept r s holds ok = elim (Bool-cases (r.request_name == "b")) [
  | inl second ↦
      let failed : ◌≡◌ {A = Result (Unit {0})} (raise value_error) (return tt) = rw second at ok in
      cc
  | inr other ↦ rw other (omega (arith, holds))
]

-- Identifiers only grow.
run_cycle-Ends_example :
    Ends
      (λ c.
        (3 ≤ c.state.db.next_id)
        × ((x : String) → is_waiting x three.db ≡ true → contains x c.evaluated ≡ true))
      (run_cycle second_fails 12 three)
run_cycle-Ends_example =
    run_cycle-Ends (λ db. 3 ≤ db.next_id) second_fails second_fails-IsConfined second_fails-IsKept
      12 three (omega arith) (omega arith)

run_cycle-evaluates_all_example :
    Ends
      (λ c. (x : String) → is_waiting x three.db ≡ true → contains x c.evaluated ≡ true)
      (run_cycle
        (evaluate_request default_settings 500
          (build_workers work sample_disk none default_settings rounds 500))
        12
        three)
run_cycle-evaluates_all_example =
    run_cycle-evaluates_all work work-AreQuietRounds sample_disk none tt default_settings rounds 500
      12 three (omega arith)
