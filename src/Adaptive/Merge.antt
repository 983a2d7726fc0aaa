-- ===== src/Adaptive/Merge.antt =====
-- `merge_round_metrics`: efficiencies are put on the original number of threads.
use condora.Base.{
  ℕ, List, [], ◌∷◌, ◌++◌, map, Option, none, some, ltb, is_empty, nat_eq, if◌then◌else◌,
}
use condora.Base.Dict.{lookup, insert}
use condora.Planner.{Fraction}
use condora.Fractions.{whole, times, over, mean}
use condora.Adaptive.{StepSamples, Cgroup, Metrics, nonreclaim_of}
use condora.Adaptive.Collect.{weighted_eff, peak_of_all}

-- The threads of a step: the mean of its samples, or those of the round.
unfoldable pub step_threads : ℕ → StepSamples → Fraction
unfolding mean
step_threads round_nt s = if is_empty s.nthreads then whole round_nt else mean s.nthreads

unfoldable pub normalize : ℕ → ℕ → StepSamples → List Fraction
unfolding step_threads times over
normalize original_nthreads round_nt s =
    if ltb 0 original_nthreads
    then map (λ e. times e (over (step_threads round_nt s) (whole original_nthreads))) s.cpu_eff
    else s.cpu_eff

-- The aggregates of merged steps.
unfoldable pub renew : ℕ → Metrics → Metrics
unfolding weighted_eff times
renew original_nthreads m = record m {
  nthreads = original_nthreads;
  weighted_cpu_eff = weighted_eff m.steps;
  effective_cores = times (weighted_eff m.steps) (whole original_nthreads);
}

unfoldable pub merge_one : ℕ → Metrics → Metrics
unfolding normalize renew
merge_one original_nthreads m = renew original_nthreads (record m {
  steps =
      map
        (λ (p : ℕ × StepSamples).
          (p.0, record (p.1) { cpu_eff = normalize original_nthreads m.nthreads p.1 }))
        m.steps;
})

abbrev pub cleared : StepSamples → StepSamples
cleared s = record s { cpu_eff = []; nthreads = [] }

-- The samples of one more round for a step; a new step starts with its own.
unfoldable pub add_step : ℕ → ℕ → ℕ → StepSamples → List (ℕ × StepSamples) → List (ℕ × StepSamples)
unfolding lookup insert normalize
add_step original_nthreads round_nt si s merged =
    let merged_step = elim (lookup si merged) as (λ _. StepSamples) [
      | none ↦ cleared s
      | some before ↦ record before { peak_rss_mb = before.peak_rss_mb ++ s.peak_rss_mb }
    ] in
    insert si
      (record merged_step {
        cpu_eff = merged_step.cpu_eff ++ normalize original_nthreads round_nt s;
      })
      merged

unfoldable pub add_steps :
    ℕ → ℕ → List (ℕ × StepSamples) → List (ℕ × StepSamples) → List (ℕ × StepSamples)
unfolding add_step
add_steps original_nthreads round_nt [] merged = merged
add_steps original_nthreads round_nt ((si, s) ∷ steps) merged =
    add_steps original_nthreads round_nt steps (add_step original_nthreads round_nt si s merged)

unfoldable pub add_rounds : ℕ → List Metrics → List (ℕ × StepSamples) → List (ℕ × StepSamples)
unfolding add_steps
add_rounds original_nthreads [] merged = merged
add_rounds original_nthreads (m ∷ rounds) merged =
    add_rounds original_nthreads rounds (add_steps original_nthreads m.nthreads m.steps merged)

-- The greatest peak of all rounds; the first one where two are equal.
unfoldable pub best_cgroup : Option Cgroup → List Metrics → Option Cgroup
best_cgroup best [] = best
best_cgroup best (m ∷ rounds) =
    best_cgroup (if ltb (nonreclaim_of best) (nonreclaim_of m.cgroup) then m.cgroup else best)
      rounds

unfoldable pub latest : Metrics → List Metrics → Metrics
latest m [] = m
latest m (m' ∷ rounds) = latest m' rounds

unfoldable pub merge_many : ℕ → Metrics → List Metrics → Metrics
unfolding latest add_rounds peak_of_all best_cgroup renew
merge_many original_nthreads m rounds =
    let last = latest m rounds in
    let steps =
      add_rounds original_nthreads (m ∷ rounds)
        (map (λ (p : ℕ × StepSamples). (p.0, cleared p.1)) last.steps) in
    renew original_nthreads (record last {
      steps = steps;
      peak_rss_mb = peak_of_all steps;
      cgroup = best_cgroup none (m ∷ rounds);
    })

-- none stands for `ValueError`.
unfoldable pub merge_round_metrics : ℕ → List Metrics → Option Metrics
unfolding merge_one merge_many
merge_round_metrics original_nthreads [] = none
merge_round_metrics original_nthreads (m ∷ []) = some (merge_one original_nthreads m)
merge_round_metrics original_nthreads (m ∷ m' ∷ rounds) =
    some (merge_many original_nthreads m (m' ∷ rounds))
