-- ===== src/Monitor/Detection.antt =====
-- A finished work unit is reported once.
use mathlib.Core.Path.{subst}
use text.Mathlib.Text.{starts_with}
use condora.Base.{
  String, Bool, true, false, List, [], ◌∷◌, ◌++◌, map, ◌≡◌, refl, sym, All, ap, ◌∙◌, ◌&&◌, ◌||◌,
  ◌==◌, not, contains, select, string_eq, Bool-cases, inl, inr, arith,
}
use condora.Rows.{WorkUnit, DagRow}
use condora.Base.Dict.{keys}
use condora.Monitor.{
  Files, NodeSummary, CompletedUnit, completed_unit, wu_name, wu_names, is_newly_completed,
  detect_completed_work_units,
}
use condora.Monitor.Poll.{enrich, with_completed}

wu_names-append :
    (units : List WorkUnit) (more : List CompletedUnit)
    → wu_names (units ++ map enrich more) ≡ wu_names units ++ map (λ wu. wu.group_name) more
wu_names-append [] [] = refl
wu_names-append [] (wu ∷ more) = ap (λ names. wu.group_name ∷ names) (wu_names-append [] more)
wu_names-append (u ∷ units) more = ap (λ names. wu_name u ∷ names) (wu_names-append units more)

contains-append :
    (name : String) (xs ys : List String)
    → contains name (xs ++ ys) ≡ (contains name xs || contains name ys)
contains-append name [] ys = refl
contains-append name (x ∷ xs) ys =
    rw (contains-append name xs ys) (or_assoc (x == name) (contains name xs) (contains name ys))
  where
    or_assoc : (a b c : Bool) → (a || (b || c)) ≡ ((a || b) || c)
    or_assoc true b c = refl
    or_assoc false b c = refl

names-detect :
    (files : Files) (dag : DagRow) (es : List (String × String))
    → map
        (λ (wu : CompletedUnit). wu.group_name)
        (map (λ (e : String × String). completed_unit files dag e.0) es)
      ≡ keys es
names-detect files dag [] = refl
names-detect files dag (e ∷ es) = ap (λ names. e.0 ∷ names) (names-detect files dag es)

-- The node is not to be reported, or it is among these.
abbrev IsCovered : List String → List String → String × String → Type 0
IsCovered already news e = (not (is_newly_completed already e) || contains e.0 news) ≡ true

weaken-IsCovered :
    (already news : List String) (name : String) (es : List (String × String))
    → All (IsCovered already news) es
    → All (IsCovered already (name ∷ news)) es
weaken-IsCovered already news name [] ok = ok
weaken-IsCovered already news name (e ∷ es) (first, rest) = (
  weaker (not (is_newly_completed already e)) (name == e.0) (contains e.0 news) first,
  weaken-IsCovered already news name es rest,
)
  where
    weaker : (a b c : Bool) → (a || c) ≡ true → (a || (b || c)) ≡ true
    weaker true b c h = refl
    weaker false true c h = refl
    weaker false false c h = h

All-IsCovered :
    (already : List String) (es : List (String × String))
    → All (IsCovered already (keys (select (is_newly_completed already) es))) es
All-IsCovered already [] = tt
All-IsCovered already (e ∷ es) = elim (Bool-cases (is_newly_completed already e)) [
  | inl new ↦
      subst (λ found. All (IsCovered already (keys found)) (e ∷ es)) (sym (chosen new))
        (
          ground (arith, string_eq.same_iff e.0 e.0),
          weaken-IsCovered already (keys rest) e.0 es (All-IsCovered already es),
        )
  | inr old ↦
      subst (λ found. All (IsCovered already (keys found)) (e ∷ es)) (sym (passed old))
        (rw (old) refl, All-IsCovered already es)
]
  where
    rest : List (String × String)
    rest = select (is_newly_completed already) es

    chosen :
        is_newly_completed already e ≡ true
        → select (is_newly_completed already) (e ∷ es) ≡ e ∷ rest
    chosen new = rw (new) refl

    passed :
        is_newly_completed already e ≡ false → select (is_newly_completed already) (e ∷ es) ≡ rest
    passed old = rw (old) refl

covered-old :
    (already news : List String) (e : String × String)
    → IsCovered already news e
    → is_newly_completed (already ++ news) e ≡ false
unfolding is_newly_completed
covered-old already news e h = rw (contains-append e.0 already news) (
    old (starts_with e.0 "mg_") (e.1 == "done" || e.1 == "success") (contains e.0 already)
      (contains e.0 news) h)
  where
    old :
        (a b c d : Bool)
        → (not (a && (b && not c)) || d) ≡ true
        → (a && (b && not (c || d))) ≡ false
    old false b c d h = refl
    old true false c d h = refl
    old true true true d h = refl
    old true true false d h = ap not h

select-covered :
    (already news : List String) (es : List (String × String))
    → All (IsCovered already news) es
    → select (is_newly_completed (already ++ news)) es ≡ []
select-covered already news [] ok = refl
select-covered already news (e ∷ es) (first, rest) =
    rw (covered-old already news e first) (select-covered already news es rest)

-- The row takes over what was detected: after that the same status file shows nothing new, so every
-- merge group that it shows as finished is among the row's completed work units, and none is
-- reported twice; and the row's units are those from before, followed by the detected ones.
pub detect_completed_work_units-once :
    (files : Files) (dag : DagRow) (summary : NodeSummary)
    → let found = detect_completed_work_units files dag summary in
      let after = record dag { completed_work_units = with_completed found dag } in
      (detect_completed_work_units files after summary ≡ [])
      × (wu_names after.completed_work_units
          ≡ wu_names dag.completed_work_units
            ++ keys (
                select
                  (is_newly_completed (wu_names dag.completed_work_units))
                  summary.node_statuses))
unfolding detect_completed_work_units
detect_completed_work_units-once files dag summary =
    let already = wu_names dag.completed_work_units in
    let found = detect_completed_work_units files dag summary in
    let chosen = select (is_newly_completed already) summary.node_statuses in
    let names : wu_names (with_completed found dag) ≡ already ++ keys chosen =
      (wu_names-append dag.completed_work_units found
        ∙ ap (λ more. already ++ more) (names-detect files dag chosen)) in
    (
      subst
          (λ known.
            map (λ (e : String × String). completed_unit files dag e.0)
              (select (is_newly_completed known) summary.node_statuses)
            ≡ [])
          (sym names)
          (ap (map (λ (e : String × String). completed_unit files dag e.0)) (
            select-covered already (keys chosen) summary.node_statuses
              (All-IsCovered already summary.node_statuses))),
      names,
    )
