-- ===== src/Planner/Examples.antt =====
-- The theorems on plans, at small inputs.
use mathlib.Core.List.{flatten}
use condora.Base.{
  ℕ, String, List, [], ◌∷◌, map, none, some, ◌≡◌, refl, ◌≤◌, ◌<◌, ◌+◌, ◌*◌, length, All, arith,
}
use condora.Splitters.{DagNodeSpec}
use condora.Planner.{
  Fraction, GenInput, gen_nodes, plan_gen_nodes, PlanningMergeGroup, plan_merge_groups,
  batch_file_size, batch_by_size,
}
use condora.Planner.GenNodes.{IsGenPlan, plan_gen_nodes-IsGenPlan}
use condora.Planner.Groups.{AreGroups, plan_merge_groups-AreGroups}
use condora.Planner.Batches.{IsBatch, batch_by_size-AreBatches}

abbrev one : Fraction
one = record { num = 1; den = 1 }

-- A filter that keeps a quarter of the events, in the second round.
abbrev input : GenInput
input = record {
  params_events_per_job = 100;
  current_round = 1;
  pilot_fraction = record { num = 1; den = 100 };
  test_fraction = one;
  filter_efficiency = record { num = 1; den = 4 };
  request_num_events = 200;
  events_produced = 50;
  next_first_event = 301;
  max_jobs = 0;
}

plan_gen_nodes_run : plan_gen_nodes input ≡ some (gen_nodes 100 6 0 301)
unfolding plan_gen_nodes
plan_gen_nodes_run = refl

plan_gen_nodes_divides :
    plan_gen_nodes (record input { filter_efficiency = record { num = 0; den = 1 } }) ≡ none
unfolding plan_gen_nodes
plan_gen_nodes_divides = refl

plan_gen_nodes-IsGenPlan_example : IsGenPlan input (plan_gen_nodes input)
plan_gen_nodes-IsGenPlan_example = plan_gen_nodes-IsGenPlan input

abbrev nodes : List DagNodeSpec
nodes = gen_nodes 100 5 0 1

plan_merge_groups-AreGroups_example :
    let groups = plan_merge_groups nodes 2 in
    (flatten (map (λ (g : PlanningMergeGroup). g.processing_nodes) groups) ≡ nodes)
    × (AreGroups 2 0 groups
        × ((length nodes ≤ 2 * length groups) × (2 * length groups < length nodes + 2)))
plan_merge_groups-AreGroups_example = plan_merge_groups-AreGroups nodes 2 (omega arith)

abbrev sizes : List (String × ℕ)
sizes = ("a", 60) ∷ ("b", 50) ∷ ("c", 0) ∷ ("d", 20) ∷ []

abbrev names : List String
names = "a" ∷ "b" ∷ "c" ∷ "d" ∷ []

batch_by_size_run :
    batch_by_size sizes (λ f. none) 100 names ≡ ("a" ∷ []) ∷ ("b" ∷ "c" ∷ "d" ∷ []) ∷ []
unfolding batch_by_size
batch_by_size_run = refl

batch_by_size-AreBatches_example :
    (flatten (batch_by_size sizes (λ f. none) 100 names) ≡ names)
    × All
        (IsBatch (batch_file_size sizes (λ f. none) 100) 100)
        (batch_by_size sizes (λ f. none) 100 names)
batch_by_size-AreBatches_example = batch_by_size-AreBatches sizes (λ f. none) 100 names
