-- ===== src/Lifecycle/MainLoop/Confined.antt =====
-- The evaluation of a request leaves the names of the requests, and the other requests, as they are.
use mathlib.Core.Path.{subst}
use condora.Base.{
  ℕ, String, Bool, true, false, List, [], ◌∷◌, map, Option, ◌≡◌, ◌≢◌, refl, ap, sym, ◌∙◌, inl, inr,
  ◌==◌, ◌&&◌, ◌||◌, not, any, contains, length, ◌+◌, ◌*◌, ◌≤◌, string_eq, Bool-cases,
}
use condora.Enums.{RequestStatus, is_terminal}
use condora.Rows.{RequestRow}
use condora.Config.{Settings}
use condora.Effects.{State, M}
use condora.Lifecycle.Transitions.{is_stuck}
use condora.Lifecycle.Admission.{Disk}
use condora.Lifecycle.Evaluate.{Workers, handle_stuck, dispatch, unstick, evaluate_request}
use condora.Lifecycle.View.{View, view_of, views, move_view, IsStep}
use condora.Lifecycle.ResubmitMoves.{IsQuietImport}
use condora.Lifecycle.Edges.{Edge, alert_active-Keeps, evaluate_request-IsStep}
use condora.Lifecycle.Active.{ActiveWork, RoundSettings}
use condora.Lifecycle.Active.Round.{is_active_request}
use condora.Lifecycle.ActiveMoves.{Run, start, step}
use condora.Lifecycle.ActiveRun.{AreQuietRounds}
use condora.Lifecycle.ActiveCycle.{handle_active-IsRun}
use condora.Lifecycle.MainLoop.{build_workers, run_cycle}
use condora.Lifecycle.MainLoop.Names.{names_of, waits_as, is_waiting}
use condora.Lifecycle.MainLoop.Ends.{IsConfined, Ends, Ends-map, run_cycle-Ends}

abbrev viewed_names : List View → List String
viewed_names vs = map (λ v. v.0) vs

abbrev waits_in : String → List View → Bool
waits_in x vs = any (λ v. v.0 == x && not (is_terminal v.1.0)) vs

names-views : (rows : List RequestRow) → names_of rows ≡ viewed_names (map view_of rows)
names-views [] = refl
names-views (r ∷ rows) = ap (λ rest. r.request_name ∷ rest) (names-views rows)

waits-views :
    (x : String) (rows : List RequestRow) → any (waits_as x) rows ≡ waits_in x (map view_of rows)
waits-views x [] = refl
waits-views x (r ∷ rows) = ap (λ rest. waits_as x r || rest) (waits-views x rows)

-- The names stay, and whether another request than the named one waits.
abbrev IsSame : String → List View → List View → Type 0
IsSame name before after =
    (viewed_names after ≡ viewed_names before)
    × ((x : String) → name == x ≡ false → waits_in x after ≡ waits_in x before)

module _ (now : ℕ) (name : String) where
  names-move :
      (to : RequestStatus) (vs : List View)
      → viewed_names (map (move_view now name to) vs) ≡ viewed_names vs
  names-move to [] = refl
  names-move to (v ∷ vs) = elim (Bool-cases (v.0 == name)) [
    | inl named ↦ rw named (ap (λ rest. v.0 ∷ rest) (names-move to vs))
    | inr other ↦ rw other (ap (λ rest. v.0 ∷ rest) (names-move to vs))
  ]

  waits-move :
      (to : RequestStatus) (x : String)
      → name == x ≡ false
      → (vs : List View) → waits_in x (map (move_view now name to) vs) ≡ waits_in x vs
  waits-move to x apart [] = refl
  waits-move to x apart (v ∷ vs) = elim (Bool-cases (v.0 == name)) [
    | inl named ↦
        let apart' : v.0 == x ≡ false = rw ((string_eq.same_iff v.0 name).0 named) apart in
        rw (named, apart') (waits-move to x apart vs)
    | inr other ↦
        rw other
          (ap (λ rest. (v.0 == x && not (is_terminal v.1.0)) || rest) (waits-move to x apart vs))
  ]

  move-IsSame :
      (to : RequestStatus) (vs : List View) → IsSame name vs (map (move_view now name to) vs)
  move-IsSame to vs = (names-move to vs, λ x apart. waits-move to x apart vs)

  Run-IsSame : (before after : List View) → Run now name before after → IsSame name before after
  Run-IsSame before _ start = (refl, λ x apart. refl)
  Run-IsSame before _ (step {vs = vs} to target run) =
      let earlier = Run-IsSame before vs run in
      (names-move to vs ∙ earlier.0, λ x apart. waits-move to x apart vs ∙ earlier.1 x apart)

  IsStep-IsSame :
      (E : RequestStatus → Type 0) (before after : List View)
      → IsStep now name E before after
      → IsSame name before after
  IsStep-IsSame E before after (inl same) = rw same (refl, λ x apart. refl)
  IsStep-IsSame E before after (inr (to, (edge, moved))) = rw moved (move-IsSame to before)

is_active-active :
    (status : RequestStatus) → is_active_request status ≡ true → status ≡ RequestStatus.active
is_active-active RequestStatus.active h = refl
is_active-active _ h = cc

idle_active :
    {status : RequestStatus} → status ≡ RequestStatus.active → is_active_request status ≡ false → ⊥
idle_active e h = cc_false (sym (ap is_active_request e) ∙ h)
  where
    cc_false : true ≡ false → ⊥
    cc_false bad = cc

module _ (work : ActiveWork) (quiet : AreQuietRounds work) (disk : Disk)
    (import_request : Option (String → M (Unit {0}))) (imports : IsQuietImport import_request)
    (settings : Settings) (rounds : RoundSettings) (now : ℕ) where
  abbrev pub workers : Workers
  workers = build_workers work disk import_request settings rounds now

  active-IsSame :
      (r : RequestRow) (s : State)
      → r.status ≡ RequestStatus.active
      → IsSame r.request_name (views s) (views (evaluate_request settings now workers r s).1)
  unfolding evaluate_request handle_stuck dispatch unstick
  active-IsSame r s at = elim (Bool-cases (is_stuck settings now r)) [
    | inl stuck ↦ rw stuck (
        subst
          (λ status.
            IsSame r.request_name (views s)
              (views (unstick settings now work.condor r.request_name status s).1))
          (sym at)
          (IsStep-IsSame now r.request_name (λ to. Unit {0}) (views s) _
            (inl (alert_active-Keeps settings now work.condor r.request_name s))))
    | inr fresh ↦ rw fresh (
        subst
          (λ status.
            IsSame r.request_name (views s) (views (dispatch settings now workers r status s).1))
          (sym at)
          (Run-IsSame now r.request_name (views s) _
            (handle_active-IsRun work quiet settings rounds now work.monitor r s)))
  ]

  evaluate_request-IsSame :
      (r : RequestRow) (s : State)
      → IsSame r.request_name (views s) (views (evaluate_request settings now workers r s).1)
  evaluate_request-IsSame r s = elim (Bool-cases (is_active_request r.status)) [
    | inl active ↦ active-IsSame r s (is_active-active r.status active)
    | inr idle ↦
        let other : r.status ≢ RequestStatus.active = λ e. idle_active e idle in
        IsStep-IsSame now r.request_name (Edge r.status) (views s) _ (
          evaluate_request-IsStep settings now workers
            (record { import-IsQuiet = imports; planner-IsQuiet = quiet.planner-IsQuiet }) r other
            s)
  ]

  pub evaluate_request-IsConfined : IsConfined (evaluate_request settings now workers)
  evaluate_request-IsConfined = record {
    names-kept = λ r s.
        names-views (evaluate_request settings now workers r s).1.db.requests
        ∙ (evaluate_request-IsSame r s).0
        ∙ sym (names-views s.db.requests);
    others-wait = λ r s x apart.
        waits-views x (evaluate_request settings now workers r s).1.db.requests
        ∙ (evaluate_request-IsSame r s).1 x apart
        ∙ sym (waits-views x s.db.requests);
  }

  -- With the components of a cycle, whose planner, import and operations outside the model make no
  -- transition: with fuel for each request and for the square of their number, a cycle ends and
  -- has evaluated each request that was not terminal at its start, whatever the pool, DBS and Rucio
  -- answer and although other evaluations fail and are rolled back.
  pub run_cycle-evaluates_all :
      (fuel : ℕ) (s : State)
      → length s.db.requests + length s.db.requests * length s.db.requests ≤ fuel
      → Ends
          (λ c. (x : String) → is_waiting x s.db ≡ true → contains x c.evaluated ≡ true)
          (run_cycle (evaluate_request settings now workers) fuel s)
  run_cycle-evaluates_all fuel s enough =
      Ends-map
        (λ c. Unit {0} × ((x : String) → is_waiting x s.db ≡ true → contains x c.evaluated ≡ true))
        (λ c. (x : String) → is_waiting x s.db ≡ true → contains x c.evaluated ≡ true)
        (run_cycle (evaluate_request settings now workers) fuel s) (λ c covers. covers.1)
        (run_cycle-Ends (λ db. Unit {0}) (evaluate_request settings now workers)
          evaluate_request-IsConfined (λ r s' holds ok. tt) fuel s enough tt)
