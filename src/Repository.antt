-- ===== src/Repository.antt =====
-- src/condora/db/repository.py: the queries and updates that the components make. A table is the
-- list of its rows in the order in which they were created; an update names the row by its key and
-- changes the columns that the call gives.
use mathlib.Core.List.{reverse}
use condora.Base.{
  ℕ, String, Bool, true, false, List, [], ◌∷◌, ◌++◌, Option, none, some, ◌+◌, ◌&&◌, ◌||◌, leb, not,
  ◌==◌, take, ltb, select, length, string_eq, nat_eq, if◌then◌else◌,
}
use condora.Enums.{RequestStatus, is_live, is_terminal}
use condora.Rows.{RequestRow, WorkflowRow, DagRow, BlockRow, SiteBanRow, DagHistoryRow}

pub record Db : Type 0 where
  pub requests : List RequestRow
  pub workflows : List WorkflowRow
  pub dags : List DagRow
  pub blocks : List BlockRow
  pub sites : List String
  pub bans : List SiteBanRow
  pub history : List DagHistoryRow
  pub next_id : ℕ

module _ {ℓ} {A : Type ℓ} where
  -- `.scalar_one_or_none()` of a query by key.
  unfoldable pub first_where : (A → Bool) → List A → Option A
  first_where p [] = none
  first_where p (x ∷ xs) = let rest = first_where p xs in if p x then some x else rest

  -- `update(…).where(…).values(…)`
  unfoldable pub update_where : (A → Bool) → (A → A) → List A → List A
  update_where p f [] = []
  update_where p f (x ∷ xs) = (if p x then f x else x) ∷ update_where p f xs

-- Requests.

abbrev pub is_request : String → RequestRow → Bool
is_request request_name r = r.request_name == request_name

unfoldable pub create_request : RequestRow → Db → Db
create_request row db = record db { requests = db.requests ++ row ∷ [] }

unfoldable pub get_request : String → Db → Option RequestRow
unfolding first_where
get_request request_name db = first_where (is_request request_name) db.requests

-- The moment of the call is recorded, whatever the other columns are.
unfoldable pub update_request : ℕ → String → (RequestRow → RequestRow) → Db → Db
unfolding update_where
update_request now request_name values db = record db {
  requests =
      update_where (is_request request_name)
        (λ r. let r' = values r in record r' { updated_at = now }) db.requests;
}

unfoldable pub get_non_terminal_requests : Db → List RequestRow
get_non_terminal_requests db = select (λ r. not (is_terminal r.status)) db.requests

abbrev pub is_queued : RequestStatus → Bool
is_queued RequestStatus.queued = true
is_queued _ = false

-- `ORDER BY priority DESC, created_at ASC`
abbrev pub goes_before : RequestRow → RequestRow → Bool
goes_before r s =
    ltb s.priority r.priority || (s.priority == r.priority && leb r.created_at s.created_at)

-- `get_queued_requests(limit=1)`
unfoldable pub next_queued : List RequestRow → Option RequestRow
next_queued [] = none
next_queued (r ∷ rs) =
    let rest = next_queued rs in
    if is_queued r.status
    then elim rest [ none ↦ some r | some s ↦ if goes_before r s then some r else some s ]
    else rest

unfoldable pub get_queued_request : Db → Option RequestRow
unfolding next_queued
get_queued_request db = next_queued db.requests

-- Workflows.

unfoldable pub get_workflow_by_request : String → Db → Option WorkflowRow
unfolding first_where
get_workflow_by_request request_name db =
    first_where (λ w. w.request_name == request_name) db.workflows

unfoldable pub update_workflow : ℕ → (WorkflowRow → WorkflowRow) → Db → Db
unfolding update_where
update_workflow workflow_id values db = record db {
  workflows = update_where (λ w. w.id == workflow_id) values db.workflows;
}

-- DAGs.

abbrev pub is_dag : ℕ → DagRow → Bool
is_dag dag_id d = d.id == dag_id

-- The identifier is fresh; the row's own is not read.
unfoldable pub create_dag : DagRow → Db → Db
create_dag row db = record db {
  dags = db.dags ++ record row { id = db.next_id } ∷ [];
  next_id = db.next_id + 1;
}

unfoldable pub get_dag : ℕ → Db → Option DagRow
unfolding first_where
get_dag dag_id db = first_where (is_dag dag_id) db.dags

unfoldable pub update_dag : ℕ → (DagRow → DagRow) → Db → Db
unfolding update_where
update_dag dag_id values db = record db { dags = update_where (is_dag dag_id) values db.dags }

abbrev pub is_active_dag : ℕ → DagRow → Bool
is_active_dag workflow_id d = d.workflow_id == workflow_id && is_live d.status

unfoldable pub get_active_dags_for_workflow : ℕ → Db → List DagRow
get_active_dags_for_workflow workflow_id db = select (is_active_dag workflow_id) db.dags

unfoldable pub count_active_dags : Db → ℕ
count_active_dags db = length (select (λ d. is_live d.status) db.dags)

-- `list_dags(workflow_id=…)`: the newest first, and at most `limit=100` of them.
unfoldable pub list_dags : ℕ → Db → List DagRow
list_dags workflow_id db = take 100 (reverse (select (λ d. d.workflow_id == workflow_id) db.dags))

-- Processing blocks.

unfoldable pub get_processing_block : ℕ → Db → Option BlockRow
unfolding first_where
get_processing_block block_id db = first_where (λ b. b.id == block_id) db.blocks

unfoldable pub get_processing_blocks : ℕ → Db → List BlockRow
get_processing_blocks workflow_id db = select (λ b. b.workflow_id == workflow_id) db.blocks

unfoldable pub update_processing_block : ℕ → (BlockRow → BlockRow) → Db → Db
unfolding update_where
update_processing_block block_id values db = record db {
  blocks = update_where (λ b. b.id == block_id) values db.blocks;
}

-- History.

unfoldable pub create_dag_history : DagHistoryRow → Db → Db
create_dag_history row db = record db { history = db.history ++ row ∷ [] }
