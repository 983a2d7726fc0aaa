-- ===== src/Lifecycle/MainLoop/Ends.antt =====
-- A cycle ends, and reaches every request.
use condora.Base.{
  ℕ, zero, suc, String, true, false, List, [], ◌∷◌, Option, none, some, ◌≡◌, refl, ap, sym, ◌∙◌,
  ◌⊎◌, inl, inr, ◌+◌, ◌*◌, ◌≤◌, ◌==◌, length, select, not, All, contains, string_eq, Bool-cases,
  arith,
}
use mathlib.Core.Path.{subst}
use condora.Rows.{RequestRow}
use condora.Repository.{Db, get_non_terminal_requests}
use condora.Effects.{Result, return, raise, State, M}
use condora.Lifecycle.MainLoop.{Cycle, Loop, remaining, after_evaluation, cycle_requests, run_cycle}
use condora.Lifecycle.MainLoop.Names.{
  names, names_of, is_waiting, unfailed, IsPending, remaining-bound, remaining-contains,
  remaining-IsPending, unfailed-lt,
}
use native.Mathlib.Nat.{mul-le-mul_left, mul-le-mul_right}

-- The cycle ends, with what `Q` says.
abbrev pub Ends : (Cycle → Type 0) → Option Cycle → Type 0
Ends Q none = ⊥
Ends Q (some c) = Q c

pub Ends-map :
    (Q R : Cycle → Type 0) (o : Option Cycle) → ((c : Cycle) → Q c → R c) → Ends Q o → Ends R o
Ends-map Q R none f q = q
Ends-map Q R (some c) f q = f c q

-- An evaluation leaves the names of the requests, and whether another request waits.
pub record IsConfined (evaluate : RequestRow → M (Unit {0})) : Type 0 where
  pub names-kept : (r : RequestRow) (s : State) → names (evaluate r s).1.db ≡ names s.db
  pub others-wait :
      (r : RequestRow) (s : State) (x : String)
      → r.request_name == x ≡ false
      → is_waiting x (evaluate r s).1.db ≡ is_waiting x s.db

-- A request is evaluated, or is in the list and waits.
abbrev IsCovered : String → List String → List String → List RequestRow → Db → Type 0
IsCovered x failed_names evaluated requests db =
    (contains x evaluated ≡ true)
    ⊎ ((contains x (names_of requests) ≡ true)
        × ((is_waiting x db ≡ true) × (contains x failed_names ≡ false)))

abbrev fuel_for : List String → List RequestRow → Db → ℕ
fuel_for failed_names requests db =
    length requests + unfailed failed_names (names db) * unfailed failed_names (names db)

square_lt : (a b : ℕ) → suc a ≤ b → a + a * a ≤ b * b
square_lt a b h = omega (arith, mul-le-mul_left a h, mul-le-mul_right b h)

module _ (P : Db → Type 0) where
  abbrev Covers : List String → List String → List RequestRow → Db → Cycle → Type 0
  Covers failed_names evaluated requests db c =
      P c.state.db
      × ((x : String)
          → IsCovered x failed_names evaluated requests db
          → contains x c.evaluated ≡ true)

  abbrev LoopEnds : ℕ → Loop → Type 0
  LoopEnds fuel loop =
      (failed_names evaluated : List String) (requests : List RequestRow) (s : State)
      → All (IsPending failed_names s.db) requests
      → fuel_for failed_names requests s.db ≤ fuel
      → P s.db
      → Ends (Covers failed_names evaluated requests s.db) (loop failed_names evaluated requests s)

  module _ (fuel : ℕ) (loop : Loop) (ends : LoopEnds fuel loop)
      (failed_names evaluated : List String) (r : RequestRow) (requests : List RequestRow)
      (db : Db) where
    committed-Ends :
        (after : State)
        → names after.db ≡ names db
        → ((x : String) → r.request_name == x ≡ false → is_waiting x after.db ≡ is_waiting x db)
        → All (IsPending failed_names db) (r ∷ requests)
        → fuel_for failed_names (r ∷ requests) db ≤ suc fuel
        → P after.db
        → Ends
            (Covers failed_names evaluated (r ∷ requests) db)
            (loop failed_names (r.request_name ∷ evaluated) requests after)
    committed-Ends after kept others (first, pending) enough holds =
        Ends-map (Covers failed_names (r.request_name ∷ evaluated) requests after.db)
          (Covers failed_names evaluated (r ∷ requests) db)
          (loop failed_names (r.request_name ∷ evaluated) requests after)
          (λ c covers. (covers.0, λ x covered. covers.1 x (covered_after x covered)))
          (ends failed_names (r.request_name ∷ evaluated) requests after
            (subst
              (λ ns.
                All
                  (λ q.
                    (contains q.request_name ns ≡ true)
                    × (contains q.request_name failed_names ≡ false))
                  requests)
              (sym kept) pending)
            (rw kept (omega (arith, enough))) holds)
      where
        covered_after :
            (x : String)
            → IsCovered x failed_names evaluated (r ∷ requests) db
            → IsCovered x failed_names (r.request_name ∷ evaluated) requests after.db
        covered_after x (inl seen) = inl (ground (arith, seen))
        covered_after x (inr (listed, (waits, spared))) = elim (Bool-cases (r.request_name == x)) [
          | inl named ↦ inl (rw named)
          | inr other ↦ inr (rw other at listed, (others x other ∙ waits, spared))
        ]

    rolled_back-Ends :
        (after : State)
        → All (IsPending failed_names db) (r ∷ requests)
        → fuel_for failed_names (r ∷ requests) db ≤ suc fuel
        → P db
        → Ends (Covers failed_names evaluated (r ∷ requests) db) (
            loop
              (r.request_name ∷ failed_names)
              (r.request_name ∷ evaluated)
              (remaining (r.request_name ∷ failed_names) db)
              (record after { db = db }))
    rolled_back-Ends after (first, pending) enough holds =
        let failed' = r.request_name ∷ failed_names in
        Ends-map (Covers failed' (r.request_name ∷ evaluated) (remaining failed' db) db)
          (Covers failed_names evaluated (r ∷ requests) db)
          (loop failed' (r.request_name ∷ evaluated) (remaining failed' db)
            (record after { db = db }))
          (λ c covers. (covers.0, λ x covered. covers.1 x (covered_again x covered)))
          (ends failed' (r.request_name ∷ evaluated) (remaining failed' db)
            (record after { db = db }) (remaining-IsPending failed' db)
            (omega (
              arith,
              enough,
              remaining-bound failed' db,
              square_lt (unfailed failed' (names db)) (unfailed failed_names (names db))
                  (unfailed-lt r.request_name failed_names (names db) first.0 first.1),
            ))
            holds)
      where
        covered_again :
            (x : String)
            → IsCovered x failed_names evaluated (r ∷ requests) db
            → IsCovered x
                (r.request_name ∷ failed_names)
                (r.request_name ∷ evaluated)
                (remaining (r.request_name ∷ failed_names) db)
                db
        covered_again x (inl seen) = inl (ground (arith, seen))
        covered_again x (inr (listed, (waits, spared))) = elim (Bool-cases (r.request_name == x)) [
          | inl named ↦ inl (rw named)
          | inr other ↦
              let spared' : contains x (r.request_name ∷ failed_names) ≡ false = rw other spared in
              inr (
                remaining-contains x (r.request_name ∷ failed_names) db waits spared',
                (waits, spared'),
              )
        ]

    outcome-Ends :
        (outcome : Result (Unit {0}) × State)
        → names outcome.1.db ≡ names db
        → ((x : String) → r.request_name == x ≡ false → is_waiting x outcome.1.db ≡ is_waiting x db)
        → All (IsPending failed_names db) (r ∷ requests)
        → fuel_for failed_names (r ∷ requests) db ≤ suc fuel
        → P db
        → (outcome.0 ≡ return tt → P outcome.1.db)
        → Ends
            (Covers failed_names evaluated (r ∷ requests) db)
            (after_evaluation loop failed_names evaluated r requests db outcome)
    unfolding after_evaluation
    outcome-Ends (return v, after) kept others pending enough holds keeps =
        committed-Ends after kept others pending enough (keeps refl)
    outcome-Ends (raise e, after) kept others pending enough holds keeps =
        rolled_back-Ends after pending enough holds

  -- A successful evaluation keeps `P`.
  abbrev pub IsKept : (RequestRow → M (Unit {0})) → Type 0
  IsKept evaluate =
      (r : RequestRow) (s : State) → P s.db → (evaluate r s).0 ≡ return tt → P (evaluate r s).1.db

  cycle_requests-Ends :
      (evaluate : RequestRow → M (Unit {0}))
      → IsConfined evaluate
      → IsKept evaluate
      → (fuel : ℕ) → LoopEnds fuel (cycle_requests evaluate fuel)
  unfolding cycle_requests
  cycle_requests-Ends evaluate confined keeps fuel failed_names evaluated [] s pending enough
        holds =
      (holds, λ x covered. elim covered [ inl seen ↦ seen | inr (listed, rest) ↦ cc ])
  cycle_requests-Ends evaluate confined keeps zero failed_names evaluated (r ∷ requests) s pending
        enough holds =
      omega (arith, enough)
  cycle_requests-Ends evaluate confined keeps (suc fuel) failed_names evaluated (r ∷ requests) s
        pending enough holds =
      outcome-Ends fuel (cycle_requests evaluate fuel)
        (cycle_requests-Ends evaluate confined keeps fuel) failed_names evaluated r requests s.db
        (evaluate r s) (confined.names-kept r s) (confined.others-wait r s) pending enough holds
        (keeps r s holds)

unfailed_none : (xs : List String) → unfailed [] xs ≡ length xs
unfailed_none [] = refl
unfailed_none (x ∷ xs) = ap suc (unfailed_none xs)

select_all : (rows : List RequestRow) → select (λ r. not (contains r.request_name [])) rows ≡ rows
select_all [] = refl
select_all (r ∷ rows) = ap (λ rest. r ∷ rest) (select_all rows)

remaining_all : (db : Db) → remaining [] db ≡ get_non_terminal_requests db
unfolding remaining
remaining_all db = select_all (get_non_terminal_requests db)

length-names : (rows : List RequestRow) → length (names_of rows) ≡ length rows
length-names [] = refl
length-names (r ∷ rows) = ap suc (length-names rows)

-- With fuel for each request and for the square of their number, a cycle ends and has evaluated each
-- request that was not terminal; what each successful evaluation keeps still holds of the database,
-- although others failed on the way.
pub run_cycle-Ends :
    (P : Db → Type 0) (evaluate : RequestRow → M (Unit {0}))
    → IsConfined evaluate
    → IsKept P evaluate
    → (fuel : ℕ) (s : State)
    → length s.db.requests + length s.db.requests * length s.db.requests ≤ fuel
    → P s.db
    → Ends
        (λ c.
          P c.state.db × ((x : String) → is_waiting x s.db ≡ true → contains x c.evaluated ≡ true))
        (run_cycle evaluate fuel s)
unfolding run_cycle
run_cycle-Ends P evaluate confined keeps fuel s enough holds =
    let first : get_non_terminal_requests s.db ≡ remaining [] s.db = sym (remaining_all s.db) in
    let bound : length (get_non_terminal_requests s.db) ≤ length s.db.requests =
      rw first (omega (arith, remaining-bound [] s.db, size)) in
    Ends-map (Covers P [] [] (get_non_terminal_requests s.db) s.db)
      (λ c.
        P c.state.db × ((x : String) → is_waiting x s.db ≡ true → contains x c.evaluated ≡ true))
      (cycle_requests evaluate fuel [] [] (get_non_terminal_requests s.db) s)
      (λ c covers. (
        covers.0,
        λ x waits.
            covers.1 x (inr (rw first (remaining-contains x [] s.db waits refl), (waits, refl))),
      ))
      (cycle_requests-Ends P evaluate confined keeps fuel [] [] (get_non_terminal_requests s.db) s
        (rw first (remaining-IsPending [] s.db)) (rw size (omega (arith, enough, bound))) holds)
  where
    size : unfailed [] (names s.db) ≡ length s.db.requests
    size = unfailed_none (names s.db) ∙ length-names s.db.requests
