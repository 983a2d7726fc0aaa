-- ===== src/Planner/Groups.antt =====
-- Merge groups are a partition of the nodes.
use mathlib.Core.List.{flatten}
use condora.Base.{ℕ, suc, List, [], ◌∷◌, map, ◌≡◌, refl, ap, ◌∙◌, ◌<◌, ◌≤◌, ◌+◌, ◌*◌, length, All}
use condora.Base.Chunks.{chunks, flatten-chunks, IsChunk, chunks-IsChunk, length-chunks}
use condora.Splitters.{DagNodeSpec}
use condora.Planner.{PlanningMergeGroup, number_groups, plan_merge_groups}

-- The groups are numbered from here on, and each has some nodes, at most so many.
abbrev pub AreGroups : ℕ → ℕ → List PlanningMergeGroup → Type 0
AreGroups size i [] = Unit
AreGroups size i (g ∷ groups) =
    (g.group_index ≡ i) × (IsChunk size g.processing_nodes × AreGroups size (suc i) groups)

number_groups-AreGroups :
    (size i : ℕ) (cs : List (List DagNodeSpec))
    → All (IsChunk size) cs
    → AreGroups size i (number_groups i cs)
unfolding number_groups
number_groups-AreGroups size i [] ok = tt
number_groups-AreGroups size i (c ∷ cs) (first, rest) =
    (refl, (first, number_groups-AreGroups size (suc i) cs rest))

nodes-number_groups :
    (i : ℕ) (cs : List (List DagNodeSpec))
    → map (λ (g : PlanningMergeGroup). g.processing_nodes) (number_groups i cs) ≡ cs
unfolding number_groups
nodes-number_groups i [] = refl
nodes-number_groups i (c ∷ cs) = ap (λ rest. c ∷ rest) (nodes-number_groups (suc i) cs)

length-number_groups :
    (i : ℕ) (cs : List (List DagNodeSpec)) → length (number_groups i cs) ≡ length cs
unfolding number_groups
length-number_groups i [] = refl
length-number_groups i (c ∷ cs) = ap suc (length-number_groups (suc i) cs)

-- For a positive number of jobs, the groups together have the nodes in their order, they are
-- numbered from 0 on, none is empty or too large, and they are as many as the quotient, rounded up.
pub plan_merge_groups-AreGroups :
    (nodes : List DagNodeSpec) (jobs_per_group : ℕ)
    → 0 < jobs_per_group
    → let groups = plan_merge_groups nodes jobs_per_group in
      (flatten (map (λ (g : PlanningMergeGroup). g.processing_nodes) groups) ≡ nodes)
      × (AreGroups jobs_per_group 0 groups
          × ((length nodes ≤ jobs_per_group * length groups)
              × (jobs_per_group * length groups < length nodes + jobs_per_group)))
unfolding plan_merge_groups
plan_merge_groups-AreGroups nodes size pos =
    let cs = chunks size nodes in
    (
      ap flatten (nodes-number_groups 0 cs) ∙ flatten-chunks size nodes pos,
      (
        number_groups-AreGroups size 0 cs (chunks-IsChunk size nodes pos),
        rw (length-number_groups 0 cs) (length-chunks size nodes pos),
      ),
    )
