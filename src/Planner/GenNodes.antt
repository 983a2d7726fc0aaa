-- ===== src/Planner/GenNodes.antt =====
-- The nodes of a generation workflow cover the events that are still to be generated.
use native.Mathlib.Nat.{div-mul-le_self, lt-div-mul-add}
use condora.Base.{
  ℕ, zero, suc, List, [], ◌∷◌, Option, none, some, ◌≡◌, refl, ◌⊎◌, inl, inr, ◌+◌, ◌-◌, ◌*◌, ◌/◌,
  ◌<◌, ◌≤◌, ◌==◌, if◌then◌else◌, ltb, leb, min, length, sum_of, nat_eq, Bool-cases, Option-cases,
  arith,
}
use condora.Planner.GenSize.{
  IsShare, effective_fraction-IsShare, IsJobSize, events_per_job-IsJobSize, IsTarget,
  target_output-IsTarget, IsNeeded, remaining_events-cases,
}
use condora.Splitters.{DagNodeSpec}
use condora.Planner.{
  Fraction, target_output, GenInput, effective_fraction, events_per_job, remaining_output,
  job_count, gen_node, gen_nodes, start_event, plan_gen_nodes,
}

-- The nodes are numbered from here on, and each generates the events that follow those before it.
abbrev pub IsRun : ℕ → ℕ → ℕ → List DagNodeSpec → Type 0
IsRun size i first [] = Unit
IsRun size i first (n ∷ nodes) =
    (n.node_index ≡ i)
    × ((n.first_event ≡ first)
        × ((n.last_event + 1 ≡ first + size)
            × ((sum_of (λ f. f.event_count) n.input_files ≡ size)
                × IsRun size (suc i) (first + size) nodes)))

gen_nodes-IsRun : (size n i first : ℕ) → 0 < size → IsRun size i first (gen_nodes size n i first)
unfolding gen_nodes gen_node
gen_nodes-IsRun size zero i first pos = tt
gen_nodes-IsRun size (suc n) i first pos =
    (refl, (refl, (omega arith, (omega arith, gen_nodes-IsRun size n (suc i) (first + size) pos))))

length-gen_nodes : (size n i first : ℕ) → length (gen_nodes size n i first) ≡ n
unfolding gen_nodes
length-gen_nodes size zero i first = refl
length-gen_nodes size (suc n) i first =
    omega (arith, length-gen_nodes size n (suc i) (first + size))

-- Just as many jobs as the events need, or as many as are allowed.
abbrev pub IsEnough : ℕ → ℕ → ℕ → ℕ → Type 0
IsEnough size max_jobs n jobs =
    (jobs * size < n + size) × ((n ≤ jobs * size) ⊎ ((0 < max_jobs) × (jobs ≡ max_jobs)))

mul-le : (a b c : ℕ) → a ≤ b → a * c ≤ b * c
mul-le zero b c h = omega arith
mul-le (suc a) zero c h = absurd (omega arith)
mul-le (suc a) (suc b) c h = omega (arith, mul-le a b c (omega arith))

job_count-IsEnough :
    (size max_jobs n : ℕ) → 0 < size → IsEnough size max_jobs n (job_count size max_jobs n)
unfolding job_count
job_count-IsEnough size max_jobs n pos =
    let jobs = (n + size - 1) / size in
    let below : jobs * size < n + size = omega (arith, div-mul-le_self (n + size - 1) size) in
    let enough : n ≤ jobs * size =
      omega (arith, lt-div-mul-add {a = n + size - 1} {b = size} pos) in
    elim (Bool-cases (ltb 0 max_jobs)) [
      | inr free ↦ rw (free) (below, inl enough)
      | inl capped ↦ rw (capped) (elim (Bool-cases (leb jobs max_jobs)) [
        | inl fits ↦
            let as_many : min jobs max_jobs ≡ jobs = ground (arith, fits) in
            rw (as_many) (below, inl enough)
        | inr cut ↦
            let fewer : max_jobs ≤ jobs = ground (arith, cut) in
            let as_many : min jobs max_jobs ≡ max_jobs = omega (arith, fewer) in
            rw (as_many) (
              omega (arith, below, mul-le max_jobs jobs size fewer),
              inr (ground (arith, capped), refl),
            )
      ])
    ]

events_per_job-pos : (g : GenInput) → 0 < events_per_job g
unfolding events_per_job
events_per_job-pos g =
    elim (Option-cases (effective_fraction g.current_round g.pilot_fraction g.test_fraction)) [
      | inl whole ↦ rw (whole, events_per_job) (ground arith)
      | inr (f, scaled) ↦ rw (scaled, events_per_job) (omega arith)
    ]

abbrev pub first_event : GenInput → ℕ
first_event g = if g.next_first_event == 0 then 1 else g.next_first_event

-- What a plan gives for so much output and jobs of a size: a division by zero, or nodes for so many
-- events.
abbrev pub IsPlan : GenInput → ℕ → ℕ → Option (List DagNodeSpec) → Type 0
IsPlan g output size none = (g.filter_efficiency.num ≡ 0) × (0 < output)
IsPlan g output size (some nodes) =
    ((output ≡ 0) × (nodes ≡ []))
    ⊎ ((n : ℕ) × (IsNeeded g.filter_efficiency output n
          × (IsRun size 0 (first_event g) nodes × IsEnough size g.max_jobs n (length nodes))))

abbrev pub IsGenPlan : GenInput → Option (List DagNodeSpec) → Type 0
IsGenPlan g plan =
    (target : ℕ) × ((share : Option Fraction) × ((size : ℕ) × (IsTarget g target
          × (IsShare g share
              × (IsJobSize g share size × IsPlan g (target - g.events_produced) size plan)))))

plan_gen_nodes-IsPlan :
    (g : GenInput) → IsPlan g (remaining_output g) (events_per_job g) (plan_gen_nodes g)
unfolding plan_gen_nodes
plan_gen_nodes-IsPlan g = elim (Bool-cases (remaining_output g == 0)) [
  | inl reached ↦ rw (reached) (inl (ground (arith, reached), refl))
  | inr open_yet ↦ rw (open_yet) (elim (remaining_events-cases g) [
    | inl (raised, nothing) ↦ rw (raised) (nothing, ground (arith, open_yet))
    | inr (n, (found, needed)) ↦
        let size = events_per_job g in
        let jobs = job_count size g.max_jobs n in
        rw (found) (
          inr (
            n,
            (
              needed,
              (
                gen_nodes-IsRun size jobs 0 (start_event g) (events_per_job-pos g),
                rw (length-gen_nodes size jobs 0 (start_event g))
                    (job_count-IsEnough size g.max_jobs n (events_per_job-pos g)),
              ),
            ),
          ))
  ])
]

-- The target is the number of events that is asked for, in a test its part, rounded down and at least
-- 1; the events of a job are those asked for, or 100000, in the share of the round, rounded likewise:
-- a test's part, in round 0 that of the pilot if it is not the larger one, and else everything.
-- Once the produced events reach the target there are no nodes, so also where no number of events
-- is asked for. Otherwise the nodes are numbered from 0 on and generate consecutive events from the
-- workflow's next one, a job's number each; they are just as many as the missing output divided by
-- the filter efficiency (rounded down) needs, or `max_jobs` where that is fewer. The code divides by
-- zero only where output is missing and the filter efficiency is 0.
pub plan_gen_nodes-IsGenPlan : (g : GenInput) → IsGenPlan g (plan_gen_nodes g)
unfolding remaining_output
plan_gen_nodes-IsGenPlan g = (
  target_output g,
  (
    effective_fraction g.current_round g.pilot_fraction g.test_fraction,
    (
      events_per_job g,
      (
        target_output-IsTarget g,
        (effective_fraction-IsShare g, (events_per_job-IsJobSize g, plan_gen_nodes-IsPlan g)),
      ),
    ),
  ),
)
