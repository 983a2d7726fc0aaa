-- ===== src/Monitor.antt =====
-- src/condora/core/dag_monitor.py: polls a DAG, detects its finished work units and ends it. Files
-- are read through a parameter, which gives their parsed contents.
pub mod Poll
pub mod Detection
pub mod Ending
mod Examples
use text.Mathlib.Text.{starts_with}
use Prim.Native.String.{◌++◌ as append}
use condora.Base.{
  ℕ, String, Bool, true, false, List, [], ◌∷◌, ◌++◌, map, Option, none, some, ◌+◌, ◌-◌, ◌&&◌, ◌||◌,
  ◌==◌, not, ltb, length, select, contains, string_eq, nat_eq, if◌then◌else◌,
}
use condora.Base.Dict.{get_or, insert, lookup}
use condora.Base.Paths.{join_path, basename}
use condora.Services.{OutputFile}
use condora.Rows.{WorkUnit, bare, enriched, DagRow}

-- `NodeSummary`
pub record NodeSummary : Type 0 where
  pub idle : ℕ
  pub running : ℕ
  pub done : ℕ
  pub failed : ℕ
  pub held : ℕ
  pub node_statuses : List (String × String)

abbrev pub empty_summary : NodeSummary
empty_summary = record { idle = 0; running = 0; done = 0; failed = 0; held = 0; node_statuses = [] }

-- A block of a status file: the DAG's counts by their keys, or a node with its number.
pub data StatusBlock : Type 0 where
  dag_status : List (String × ℕ) → StatusBlock
  node_status : String → String → StatusBlock

-- `_NODE_STATUS_MAP`
abbrev pub node_status_map : List (String × String)
node_status_map =
    ("0", "not_ready")
    ∷ ("1", "ready")
    ∷ ("2", "prerun")
    ∷ ("3", "submitted")
    ∷ ("4", "postrun")
    ∷ ("5", "done")
    ∷ ("6", "error")
    ∷ ("7", "futile")
    ∷ []

-- The statuses of the nodes: a node that comes again keeps its place and takes the new status.
unfoldable pub node_statuses_from :
    List (String × String) → List StatusBlock → List (String × String)
unfolding insert lookup
node_statuses_from statuses [] = statuses
node_statuses_from statuses (dag_status counts ∷ blocks) = node_statuses_from statuses blocks
node_statuses_from statuses (node_status name number ∷ blocks) =
    node_statuses_from (insert name (get_or number "unknown" node_status_map) statuses) blocks

-- The last block of the DAG.
unfoldable pub dag_block : List StatusBlock → Option (List (String × ℕ))
dag_block [] = none
dag_block (dag_status counts ∷ blocks) = elim (dag_block blocks) [
  | none ↦ some counts
  | some later ↦ some later
]
dag_block (node_status name number ∷ blocks) = dag_block blocks

abbrev pub is_one_of : List String → String × String → Bool
is_one_of names e = contains e.1 names

unfoldable pub count_statuses : List String → List (String × String) → ℕ
count_statuses names statuses = length (select (is_one_of names) statuses)

-- `_parse_dagman_status`, from the blocks of the file, or none where there is no file.
unfoldable pub parse_blocks : List StatusBlock → NodeSummary
unfolding node_statuses_from dag_block count_statuses lookup
parse_blocks blocks =
    let statuses = node_statuses_from [] blocks in
    elim (dag_block blocks) [
      | none ↦ record {
        idle = count_statuses ("ready" ∷ "not_ready" ∷ []) statuses;
        running = count_statuses ("submitted" ∷ "postrun" ∷ "prerun" ∷ []) statuses;
        done = count_statuses ("done" ∷ []) statuses;
        failed = count_statuses ("error" ∷ "futile" ∷ []) statuses;
        held = 0;
        node_statuses = statuses;
      }
      | some counts ↦
          let count : String → ℕ = λ key. get_or key 0 counts in
          record {
            idle =
                count "JobProcsIdle" + count "NodesReady" + count "NodesUnready" + count "NodesPre";
            running =
                (count "NodesQueued" - count "JobProcsIdle" - count "JobProcsHeld")
                + count "NodesPost";
            done = count "NodesDone";
            failed = count "NodesFailed";
            held = count "JobProcsHeld";
            node_statuses = statuses;
          }
    ]

unfoldable pub parse_dagman_status : Option (List StatusBlock) → NodeSummary
unfolding parse_blocks
parse_dagman_status none = empty_summary
parse_dagman_status (some blocks) = parse_blocks blocks

-- The totals of a step in a work unit's metrics; an absent total is none.
pub record StepMetrics : Type 0 where
  pub events_written : Option ℕ
  pub events_processed : Option ℕ

-- The step with the greatest number.
unfoldable pub last_step : List (ℕ × StepMetrics) → Option (ℕ × StepMetrics)
last_step [] = none
last_step (e ∷ per_step) = elim (last_step per_step) [
  | none ↦ some e
  | some later ↦ if ltb e.0 later.0 then some later else some e
]

abbrev pub step_events : StepMetrics → ℕ
step_events m = elim m.events_written [
  | none ↦ elim m.events_processed [ none ↦ 0 | some total ↦ total ]
  | some total ↦ total
]

-- `_extract_output_events`
unfoldable pub extract_output_events : Option (List (ℕ × StepMetrics)) → ℕ
unfolding last_step
extract_output_events none = 0
extract_output_events (some per_step) = elim (last_step per_step) [
  | none ↦ 0
  | some e ↦ step_events e.1
]

-- `merge_output.json`
pub record Manifest : Type 0 where
  pub site : String
  pub datasets : List (String × List OutputFile)

-- What the files of a DAG hold, by the directory or the path; none where there is no such file.
pub record Files : Type 0 where
  pub status_blocks : String → Option (List StatusBlock)
  pub metrics : String → Option NodeSummary
  pub exists : String → Bool
  pub manifest : String → String → Option Manifest
  pub unit_metrics : String → String → Option (List (ℕ × StepMetrics))

-- An item of `newly_completed`.
pub record CompletedUnit : Type 0 where
  pub group_name : String
  pub manifest : Option Manifest
  pub output_events : ℕ

abbrev pub wu_name : WorkUnit → String
wu_name (bare name) = name
wu_name (enriched name output_events) = name

abbrev pub wu_names : List WorkUnit → List String
wu_names units = map wu_name units

abbrev pub completed_unit : Files → DagRow → String → CompletedUnit
completed_unit files dag name = record {
  group_name = name;
  manifest = files.manifest dag.submit_dir name;
  output_events = extract_output_events (files.unit_metrics dag.submit_dir name);
}

-- `node_name.startswith("mg_") and status in (…) and node_name not in already_completed`
unfoldable pub is_newly_completed : List String → String × String → Bool
is_newly_completed already e =
    starts_with e.0 "mg_" && ((e.1 == "done" || e.1 == "success") && not (contains e.0 already))

-- `_detect_completed_work_units`
unfoldable pub detect_completed_work_units : Files → DagRow → NodeSummary → List CompletedUnit
unfolding is_newly_completed
detect_completed_work_units files dag summary =
    map (λ e. completed_unit files dag e.0)
      (select (is_newly_completed (wu_names dag.completed_work_units)) summary.node_statuses)

abbrev pub add_summary : NodeSummary → NodeSummary → NodeSummary
add_summary a b = record a {
  idle = a.idle + b.idle;
  running = a.running + b.running;
  done = a.done + b.done;
  failed = a.failed + b.failed;
  held = a.held + b.held;
}

-- The loop over the merge groups, from the total so far, if a file was found.
unfoldable pub inner_total :
    Files → String → Option NodeSummary → List (String × String) → Option NodeSummary
unfolding parse_blocks join_path
inner_total files submit_dir total [] = total
inner_total files submit_dir total (e ∷ nodes) =
    let path = join_path (join_path submit_dir e.0) "group.dag.status" in
    let so_far = elim total as (λ _. NodeSummary) [ none ↦ empty_summary | some t ↦ t ] in
    let grown = elim (files.status_blocks path) as (λ _. Option NodeSummary) [
      | none ↦ total
      | some blocks ↦ some (add_summary so_far (parse_blocks blocks))
    ] in
    inner_total files submit_dir (if starts_with e.0 "mg_" then grown else total) nodes

-- `_resolve_dag_file`
unfoldable pub resolve_dag_file : Files → DagRow → String → String
unfolding join_path basename
resolve_dag_file files dag suffix =
    let candidate = join_path dag.submit_dir (append (basename dag.dag_file_path) suffix) in
    if files.exists candidate then candidate else append dag.dag_file_path suffix

-- `_aggregate_inner_status`: none stands for the outer summary itself.
unfoldable pub aggregate_inner_status : Files → DagRow → NodeSummary → Option NodeSummary
unfolding inner_total
aggregate_inner_status files dag outer = inner_total files dag.submit_dir none outer.node_statuses
