-- ===== src/ErrorHandler.antt =====
-- src/condora/core/error_handler.py: what happens to a DAG that ended with failures. The side files
-- of its jobs are an argument, as read from disk, and so is the test whether a path exists. `now` is
-- the database's clock.
pub mod SiteFailures
pub mod RescueChain
pub mod Completion
mod Examples
use Prim.Native.String.{◌++◌ as append}
use condora.Base.{
  ℕ, zero, suc, String, Bool, true, false, List, [], ◌∷◌, ◌++◌, Option, none, some, ◌+◌, ◌-◌, ◌*◌,
  ◌/◌, ◌%◌, max, ◌&&◌, ◌||◌, not, ◌==◌, ltb, leb, length, string_eq, if◌then◌else◌,
}
use condora.Base.Texts.{digit}
use condora.Base.Dict.{get_or, lookup, increment}
use condora.Enums.{DagStatus}
use condora.Rows.{RequestRow, WorkflowRow, DagRow, DagHistoryRow}
use condora.Config.{Settings}
use condora.Repository.{Db, get_dag, create_dag_history}
use condora.Sites.{ban_site}
use condora.Lifecycle.Resubmit.{create_rescue}

-- `entry["job"]["site"]` and `entry["classification"]["category"]`, where they are there.
pub record PostEntry : Type 0 where
  pub site : Option String
  pub category : Option String

pub data Action : Type 0 where
  rescue hold : Action

pub record CompletionResult : Type 0 where
  pub action : Action
  pub problem_sites : List String

-- `….get(key, default)`
abbrev pub or_text : String → Option String → String
or_text default none = default
or_text default (some s) = s

abbrev pub site_of : PostEntry → String
site_of e = or_text "unknown" e.site

abbrev pub is_site_category : String → Bool
is_site_category c = c == "infrastructure" || (c == "infrastructure_memory" || c == "data")

abbrev pub is_site_failure : PostEntry → Bool
is_site_failure e = is_site_category (or_text "" e.category)

-- The first loop of `analyze_site_failures`, on `site_failures` and on `site_total`.
unfoldable pub count_failures : List PostEntry → List (String × ℕ) → List (String × ℕ)
unfolding increment
count_failures [] site_failures = site_failures
count_failures (e ∷ post_data) site_failures =
    count_failures post_data
      (if is_site_failure e then increment (site_of e) site_failures else site_failures)

unfoldable pub count_total : List PostEntry → List (String × ℕ) → List (String × ℕ)
unfolding increment
count_total [] site_total = site_total
count_total (e ∷ post_data) site_total = count_total post_data (increment (site_of e) site_total)

-- More than half of the jobs failed, and three at least.
abbrev pub is_problem : ℕ → ℕ → Bool
is_problem total failures = ltb 0 total && (ltb total (2 * failures) && leb 3 failures)

-- The second loop.
unfoldable pub problems : List (String × ℕ) → List (String × ℕ) → List String
unfolding lookup
problems site_total [] = []
problems site_total ((site, failures) ∷ site_failures) =
    let rest = problems site_total site_failures in
    if is_problem (get_or site 0 site_total) failures then site ∷ rest else rest

unfoldable pub analyze_site_failures : List PostEntry → List String
unfolding count_failures count_total problems
analyze_site_failures post_data = problems (count_total post_data []) (count_failures post_data [])

-- How many rescues led to a DAG. The fuel is its identifier: a parent is older than its child.
unfoldable pub rescue_chain : Db → ℕ → DagRow → ℕ
unfolding get_dag
rescue_chain db zero dag = 0
rescue_chain db (suc fuel) dag = elim dag.parent_dag_id [
  | none ↦ 0
  | some parent ↦ elim (get_dag parent db) [
    | none ↦ 1
    | some current ↦ suc (rescue_chain db fuel current)
  ]
]

unfoldable pub count_rescue_chain : Db → DagRow → ℕ
unfolding rescue_chain
count_rescue_chain db dag = rescue_chain db dag.id dag

-- `f"{dag_file_path}.rescue{i:03d}"`, for a number of at most three digits.
unfoldable pub rescue_name : String → ℕ → String
rescue_name dag_file_path i =
    append dag_file_path
      (append ".rescue" (append (digit (i / 100)) (append (digit (i / 10 % 10)) (digit (i % 10)))))

-- The file with the highest number from `i` down, and the first name where there is none.
unfoldable pub find_from : (String → Bool) → String → ℕ → String
unfolding rescue_name
find_from exists dag_file_path zero = append dag_file_path ".rescue001"
find_from exists dag_file_path (suc i) =
    let rest = find_from exists dag_file_path i in
    if exists (rescue_name dag_file_path (suc i)) then rescue_name dag_file_path (suc i) else rest

unfoldable pub find_rescue_dag : (String → Bool) → DagRow → String
unfolding find_from
find_rescue_dag exists dag = find_from exists dag.dag_file_path 99

unfoldable pub failed_work_units : DagRow → ℕ
failed_work_units dag = dag.total_work_units - length dag.completed_work_units

-- `ratio < error_hold_threshold`, with the threshold in percent.
unfoldable pub is_below_threshold : Settings → DagRow → Bool
unfolding failed_work_units
is_below_threshold settings dag =
    ltb (100 * failed_work_units dag) (settings.error_hold_threshold * max dag.total_work_units 1)

unfoldable pub record_event : DagRow → Db → Db
unfolding create_dag_history failed_work_units
record_event dag db =
    create_dag_history
      (record {
        dag_id = dag.id;
        event_type = "dag_completion";
        from_status = dag.status;
        failed_work_units = failed_work_units dag;
        completed_work_units = length dag.completed_work_units;
        total_work_units = dag.total_work_units;
      })
      db

module _ (settings : Settings) (now : ℕ) where
  -- The loop over the problem sites; an adapter without a site manager bans none.
  unfoldable pub ban_sites : Bool → String → ℕ → List String → Db → Db
  unfolding ban_site
  ban_sites has_site_manager reason workflow_id [] db = db
  ban_sites has_site_manager reason workflow_id (site ∷ sites) db =
      if has_site_manager
      then ban_sites has_site_manager reason workflow_id sites
          (ban_site settings now site (some workflow_id) reason none db).0
      else db

  -- Rescue or hold, once the event and the bans are recorded.
  unfoldable pub decide :
      (String → Bool) → List String → DagRow → WorkflowRow → Db → Db × CompletionResult
  unfolding count_rescue_chain is_below_threshold create_rescue
  decide exists problem_sites dag workflow db =
      if leb settings.error_max_rescue_attempts (count_rescue_chain db dag)
      then (db, record { action = hold; problem_sites = problem_sites })
      else if is_below_threshold settings dag
      then (
        create_rescue workflow.id dag (find_rescue_dag exists dag) db,
        record { action = rescue; problem_sites = problem_sites },
      )
      else (db, record { action = hold; problem_sites = problem_sites })

  unfoldable pub handle_dag_completion :
      (String → Bool)
      → Bool
      → List PostEntry
      → DagRow
      → RequestRow
      → WorkflowRow
      → Db
      → Db × CompletionResult
  unfolding record_event ban_sites analyze_site_failures decide
  handle_dag_completion exists has_site_manager post_data dag request workflow db =
      let problem_sites = analyze_site_failures post_data in
      decide exists problem_sites dag workflow (
        ban_sites has_site_manager (append "High failure rate for " request.request_name)
          workflow.id problem_sites (record_event dag db))
