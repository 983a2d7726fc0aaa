-- ===== src/AdmissionController.antt =====
-- src/condora/core/admission_controller.py: how many DAGs may run, and which request is next.
use condora.Base.{
  ℕ, String, Bool, List, [], ◌∷◌, Option, none, some, ◌≡◌, inl, inr, refl, ◌∙◌, ltb, take, length,
  Bool-cases, if◌then◌else◌,
}
use condora.Rows.{RequestRow}
use condora.Repository.{
  Db, is_queued, goes_before, next_queued, get_queued_request, count_active_dags,
}

abbrev first : {A : Type 0} → List A → Option A
first [] = none
first (x ∷ xs) = some x

-- `ORDER BY priority DESC, created_at ASC`
unfoldable insert_queued : RequestRow → List RequestRow → List RequestRow
insert_queued r [] = r ∷ []
insert_queued r (s ∷ rows) =
    let rest = insert_queued r rows in if goes_before r s then r ∷ s ∷ rows else s ∷ rest

unfoldable sort_queued : List RequestRow → List RequestRow
unfolding insert_queued
sort_queued [] = []
sort_queued (r ∷ rows) =
    let rest = sort_queued rows in if is_queued r.status then insert_queued r rest else rest

unfoldable get_queued_requests : ℕ → Db → List RequestRow
unfolding sort_queued
get_queued_requests limit db = take limit (sort_queued db.requests)

unfoldable has_capacity : ℕ → Db → Bool
unfolding count_active_dags
has_capacity max_active_dags db = ltb (count_active_dags db) max_active_dags

unfoldable get_next_pending : Db → Option RequestRow
unfolding get_queued_requests
get_next_pending db = first (get_queued_requests 1 db)

record QueueStatus : Type 0 where
  active_dags : ℕ
  max_active_dags : ℕ
  capacity_available : Bool
  queued_requests : ℕ
  next_pending : Option String

abbrev name_of : Option RequestRow → Option String
name_of none = none
name_of (some r) = some r.request_name

unfoldable get_queue_status : ℕ → Db → QueueStatus
unfolding count_active_dags get_queued_requests
get_queue_status max_active_dags db =
    let active_count = count_active_dags db in
    let pending = get_queued_requests 100 db in
    record {
      active_dags = active_count;
      max_active_dags = max_active_dags;
      capacity_available = ltb active_count max_active_dags;
      queued_requests = length pending;
      next_pending = name_of (first pending);
    }

first-insert_queued :
    (r : RequestRow) (rows : List RequestRow)
    → first (insert_queued r rows)
      ≡ elim (first rows) [ none ↦ some r | some s ↦ if goes_before r s then some r else some s ]
unfolding insert_queued
first-insert_queued r [] = refl
first-insert_queued r (s ∷ rows) = elim (Bool-cases (goes_before r s)) [
  | inl before ↦ rw before refl
  | inr behind ↦ rw behind refl
]

first-sort_queued : (rows : List RequestRow) → first (sort_queued rows) ≡ next_queued rows
unfolding sort_queued next_queued
first-sort_queued [] = refl
first-sort_queued (r ∷ rows) = elim (Bool-cases (is_queued r.status)) [
  | inl queued ↦ rw (queued, first-insert_queued r (sort_queued rows), first-sort_queued rows) refl
  | inr other ↦ rw other (first-sort_queued rows)
]

first-take : {A : Type 0} (xs : List A) → first (take 1 xs) ≡ first xs
first-take [] = refl
first-take (x ∷ xs) = refl

-- The next request of the controller is the one whose turn `_handle_queued` waits for.
get_next_pending-get_queued_request : (db : Db) → get_next_pending db ≡ get_queued_request db
unfolding get_next_pending get_queued_requests get_queued_request
get_next_pending-get_queued_request db =
    first-take (sort_queued db.requests) ∙ first-sort_queued db.requests
