-- ===== src/Planner.antt =====
-- src/condora/core/dag_planner.py: the arithmetic of a plan, that is the nodes of a generation
-- workflow, the merge groups, the batches of a merge job and the pilot's size. Fractions and
-- seconds that the code has as floats are exact fractions here.
pub mod GenSize
pub mod GenNodes
pub mod Groups
pub mod Batches
mod Examples
use Prim.Native.String.{◌++◌ as append}
use condora.Base.{
  ℕ, zero, suc, String, Bool, true, false, List, [], ◌∷◌, ◌++◌, Option, none, some, ◌+◌, ◌-◌, ◌*◌,
  ◌/◌, ◌&&◌, ◌||◌, ◌==◌, not, ltb, leb, min, max, is_empty, string_eq, nat_eq, if◌then◌else◌,
}
use condora.Base.Texts.{decimal}
use condora.Base.Dict.{lookup}
use condora.Base.Chunks.{chunks}
use condora.Splitters.{InputFile, DagNodeSpec}

-- A number of `config`, as numerator and denominator; the denominator is positive.
pub record Fraction : Type 0 where
  pub num : ℕ
  pub den : ℕ

-- `f < 1.0`, `0 < f < 1.0`, `f < g` and `int(n * f)`
abbrev pub is_below_one : Fraction → Bool
is_below_one f = ltb f.num f.den

abbrev pub is_proper : Fraction → Bool
is_proper f = ltb 0 f.num && ltb f.num f.den

abbrev pub is_less : Fraction → Fraction → Bool
is_less f g = ltb (f.num * g.den) (g.num * f.den)

unfoldable pub scale : ℕ → Fraction → ℕ
scale n f = n * f.num / f.den

-- `_effective_fraction`; none stands for 1.0.
unfoldable pub effective_fraction : ℕ → Fraction → Fraction → Option Fraction
effective_fraction current_round pilot test =
    if current_round == 0
    then if is_proper pilot
      then if is_proper test && is_less test pilot then some test else some pilot
      else if is_proper test
      then some test
      else none
    else if is_proper test
    then some test
    else none

-- What `_plan_gen_nodes` reads of the workflow and of its `config`.
pub record GenInput : Type 0 where
  pub params_events_per_job : ℕ
  pub current_round : ℕ
  pub pilot_fraction : Fraction
  pub test_fraction : Fraction
  pub filter_efficiency : Fraction
  pub request_num_events : ℕ
  pub events_produced : ℕ
  pub next_first_event : ℕ
  pub max_jobs : ℕ

-- The events of a job, scaled for the pilot and for tests.
unfoldable pub events_per_job : GenInput → ℕ
unfolding effective_fraction scale
events_per_job g =
    let asked = if g.params_events_per_job == 0 then 100000 else g.params_events_per_job in
    elim (effective_fraction g.current_round g.pilot_fraction g.test_fraction) [
      | none ↦ asked
      | some f ↦ max 1 (scale asked f)
    ]

unfoldable pub target_output : GenInput → ℕ
unfolding scale
target_output g =
    if is_proper g.test_fraction && ltb 0 g.request_num_events
    then max 1 (scale g.request_num_events g.test_fraction)
    else g.request_num_events

unfoldable pub remaining_output : GenInput → ℕ
unfolding target_output
remaining_output g = target_output g - g.events_produced

-- The events to generate. A filter efficiency below 1 divides, so at 0 the code raises.
unfoldable pub remaining_events : GenInput → Option ℕ
unfolding remaining_output
remaining_events g =
    if is_below_one g.filter_efficiency
    then if g.filter_efficiency.num == 0
      then none
      else some (remaining_output g * g.filter_efficiency.den / g.filter_efficiency.num)
    else some (remaining_output g)

-- `math.ceil(n / size)`, capped where `max_jobs` is positive.
unfoldable pub job_count : ℕ → ℕ → ℕ → ℕ
job_count size max_jobs n =
    let jobs = (n + size - 1) / size in if ltb 0 max_jobs then min jobs max_jobs else jobs

unfoldable pub gen_node : ℕ → ℕ → ℕ → DagNodeSpec
unfolding decimal
gen_node size i first_event =
    let last_event = first_event + size - 1 in
    let actual_events = last_event - first_event + 1 in
    record {
      node_index = i;
      input_files =
          record {
            ident = i;
            lfn =
                append "synthetic://gen/events_"
                  (append (decimal first_event) (append "_" (decimal last_event)));
            file_size = 0;
            event_count = actual_events;
            locations = [];
          }
          ∷ [];
      first_event = first_event;
      last_event = last_event;
      events_per_job = actual_events;
      primary_location = "";
    }

-- The loop: so many nodes from this index and this event on.
unfoldable pub gen_nodes : ℕ → ℕ → ℕ → ℕ → List DagNodeSpec
unfolding gen_node
gen_nodes size zero i first_event = []
gen_nodes size (suc n) i first_event =
    gen_node size i first_event ∷ gen_nodes size n (suc i) (first_event + size)

-- `next_first_event or 1`
abbrev pub start_event : GenInput → ℕ
start_event g = if g.next_first_event == 0 then 1 else g.next_first_event

-- none stands for `ZeroDivisionError`.
unfoldable pub plan_gen_nodes : GenInput → Option (List DagNodeSpec)
unfolding remaining_output remaining_events job_count events_per_job gen_nodes
plan_gen_nodes g = if remaining_output g == 0 then some [] else elim (remaining_events g) [
  | none ↦ none
  | some n ↦
      some
        (gen_nodes (events_per_job g) (job_count (events_per_job g) g.max_jobs n) 0 (start_event g))
]

-- `PlanningMergeGroup`
pub record PlanningMergeGroup : Type 0 where
  pub group_index : ℕ
  pub processing_nodes : List DagNodeSpec

unfoldable pub number_groups : ℕ → List (List DagNodeSpec) → List PlanningMergeGroup
number_groups i [] = []
number_groups i (chunk ∷ chunks') =
    record { group_index = i; processing_nodes = chunk } ∷ number_groups (suc i) chunks'

-- `_plan_merge_groups`, for a positive number of jobs.
unfoldable pub plan_merge_groups : List DagNodeSpec → ℕ → List PlanningMergeGroup
unfolding number_groups chunks
plan_merge_groups nodes jobs_per_group = number_groups 0 (chunks jobs_per_group nodes)

-- The size of a file for `batch_by_size`: as given and positive, or of the file on disk, or a guess.
unfoldable pub batch_file_size : List (String × ℕ) → (String → Option ℕ) → ℕ → String → ℕ
unfolding lookup
batch_file_size file_sizes on_disk max_size f =
    let other = (elim (on_disk f) as (λ _. ℕ) [ none ↦ max_size / 4 | some n ↦ n ]) in
    elim (lookup f file_sizes) [ none ↦ other | some n ↦ if ltb 0 n then n else other ]

-- The loop of `batch_by_size`, with the current batch and its size.
unfoldable pub batches_from : (String → ℕ) → ℕ → List String → ℕ → List String → List (List String)
batches_from size max_size current_batch current_size [] =
    if is_empty current_batch then [] else current_batch ∷ []
batches_from size max_size current_batch current_size (f ∷ files) =
    elim (not (is_empty current_batch) && ltb max_size (current_size + size f)) [
      | true ↦ current_batch ∷ batches_from size max_size (f ∷ []) (size f) files
      | false ↦ batches_from size max_size (current_batch ++ f ∷ []) (current_size + size f) files
    ]

unfoldable pub batch_by_size :
    List (String × ℕ) → (String → Option ℕ) → ℕ → List String → List (List String)
unfolding batches_from batch_file_size
batch_by_size file_sizes on_disk max_size files =
    batches_from (batch_file_size file_sizes on_disk max_size) max_size [] 0 files

-- `_effective_stageout`
unfoldable pub effective_stageout : String → String
effective_stageout mode =
    if mode == "test" || (mode == "production" || mode == "grid") then "grid" else "local"

-- `_compute_max_wall_time_mins`, with the settings for landing and cleanup nodes, if there are any.
unfoldable pub compute_max_wall_time_mins : String → Option (ℕ × ℕ) → ℕ
compute_max_wall_time_mins node_type settings =
    if node_type == "landing"
    then elim settings [ none ↦ 30 | some s ↦ s.0 ]
    else if node_type == "cleanup"
    then elim settings [ none ↦ 60 | some s ↦ s.1 ]
    else 0

-- `_compute_pilot_config`: the events and the timeout of a pilot, with the defaults of the settings.
unfoldable pub pilot_initial_events : Fraction → ℕ → ℕ
pilot_initial_events filter_efficiency default =
    if is_proper filter_efficiency
    then max 10 (min (10 * filter_efficiency.den / filter_efficiency.num) 10000)
    else default

unfoldable pub pilot_timeout : Fraction → ℕ → ℕ → ℕ
unfolding scale
pilot_timeout time_per_event initial_events default =
    if ltb 0 time_per_event.num
    then max 600 (scale (initial_events * 5) time_per_event)
    else default
