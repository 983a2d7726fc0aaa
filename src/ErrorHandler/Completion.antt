-- ===== src/ErrorHandler/Completion.antt =====
-- When a DAG that ended with failures is rescued, and when it is held.
use Prim.Native.String.{◌++◌ as append}
use condora.Base.{
  ℕ, String, Bool, true, false, List, [], ◌∷◌, ◌++◌, none, some, ◌∙◌, ap, Option-cases, zero, suc,
  ◌≡◌, ◌↔◌, ◌*◌, ◌<◌, max, leb, inl, inr, refl, arith, Bool-cases,
}
use condora.Enums.{DagStatus}
use condora.Rows.{RequestRow, WorkflowRow, DagRow}
use condora.Config.{Settings}
use condora.Repository.{Db, get_dag, is_dag, first_where}
use condora.Sites.{ban_row, create_site_ban, check_promotion, add_ban, ban_site}
use condora.Lifecycle.Resubmit.{rescue_row, create_rescue}
use condora.ErrorHandler.RescueChain.{root-rescue_chain, child-rescue_chain}
use condora.ErrorHandler.{
  PostEntry, Action, rescue, hold, rescue_chain, count_rescue_chain, is_below_threshold,
  failed_work_units, record_event, ban_sites, find_rescue_dag, analyze_site_failures,
  handle_dag_completion, decide,
}

get_dag-dags : (db db' : Db) → db'.dags ≡ db.dags → (id : ℕ) → get_dag id db' ≡ get_dag id db
unfolding get_dag
get_dag-dags db db' same id = ap (first_where (is_dag id)) same

rescue_chain-dags :
    (db db' : Db)
    → db'.dags ≡ db.dags
    → (fuel : ℕ) (d : DagRow) → rescue_chain db' fuel d ≡ rescue_chain db fuel d
unfolding rescue_chain
rescue_chain-dags db db' same zero d = refl
rescue_chain-dags db db' same (suc fuel) d = elim (Option-cases d.parent_dag_id) [
  | inl root ↦ rw (root-rescue_chain db' (suc fuel) d root, root-rescue_chain db (suc fuel) d root)
  | inr (parent, child) ↦
      rw
        (
          child-rescue_chain db' fuel parent d child,
          child-rescue_chain db fuel parent d child,
          get_dag-dags db db' same parent,
        )
        (elim (Option-cases (get_dag parent db)) [
          | inl lost ↦ rw lost
          | inr (current, found) ↦ rw (found, rescue_chain-dags db db' same fuel current)
        ])
]

-- The DAG of a rescue: the same files and plan as the one that ended, of which it is the child, with
-- the units that are done; ready, not submitted, and not stopped.
abbrev pub child_of : ℕ → DagRow → String → ℕ → DagRow
child_of workflow_id dag rescue_path id = record dag {
  id = id;
  workflow_id = workflow_id;
  parent_dag_id = some dag.id;
  rescue_dag_path = some rescue_path;
  dagman_cluster_id = none;
  schedd_name = none;
  stop_requested_at = none;
  stop_reason = "";
  nodes_idle = 0;
  nodes_running = 0;
  nodes_done = 0;
  nodes_failed = 0;
  nodes_held = 0;
  round_number = 0;
  status = DagStatus.ready;
}

-- The DAGs, with the new one where there was a rescue.
abbrev pub with_child : Action → (ℕ → DagRow) → ℕ → List DagRow → List DagRow
with_child rescue child next_id dags = dags ++ child next_id ∷ []
with_child hold child next_id dags = dags

-- The DAGs and the next identifier of two databases agree.
HasDagsOf : Db → Db → Type 0
HasDagsOf db db' = (db'.dags ≡ db.dags) × (db'.next_id ≡ db.next_id)

module _ (settings : Settings) (now : ℕ) where
  check_promotion-HasDagsOf :
      (s : String) (db : Db) → HasDagsOf db (check_promotion settings now s db)
  unfolding check_promotion create_site_ban HasDagsOf
  check_promotion-HasDagsOf s db = ground arith

  ban_site-HasDagsOf :
      (s reason : String) (w : ℕ) (db : Db)
      → HasDagsOf db (ban_site settings now s (some w) reason none db).0
  unfolding ban_site add_ban create_site_ban HasDagsOf
  ban_site-HasDagsOf s reason w db = ground (
    arith,
    check_promotion-HasDagsOf s
        (create_site_ban (ban_row now s (some w) reason settings.site_ban_duration_days) db),
  )

  -- Bans do not touch the DAGs.
  ban_sites-HasDagsOf :
      (has : Bool) (reason : String) (w : ℕ) (sites : List String) (db : Db)
      → HasDagsOf db (ban_sites settings now has reason w sites db)
  unfolding ban_sites HasDagsOf
  ban_sites-HasDagsOf has reason w [] db = (refl, refl)
  ban_sites-HasDagsOf false reason w (s ∷ sites) db = (refl, refl)
  ban_sites-HasDagsOf true reason w (s ∷ sites) db =
      let one = ban_site-HasDagsOf s reason w db in
      let rest =
        ban_sites-HasDagsOf true reason w sites
          (ban_site settings now s (some w) reason none db).0 in
      (rest.0 ∙ one.0, rest.1 ∙ one.1)

  decide-rescue_iff :
      (exists : String → Bool) (sites : List String) (dag : DagRow) (w : WorkflowRow) (db : Db)
      → ((decide settings now exists sites dag w db).1.action ≡ rescue) ↔ (
          (count_rescue_chain db dag < settings.error_max_rescue_attempts)
          × (100 * failed_work_units dag
              < settings.error_hold_threshold * max dag.total_work_units 1))
  unfolding decide is_below_threshold
  decide-rescue_iff exists sites dag w db = ground arith

  dags-decide :
      (exists : String → Bool) (sites : List String) (dag : DagRow) (w : WorkflowRow) (db : Db)
      → let result = decide settings now exists sites dag w db in
        result.0.dags
        ≡ with_child result.1.action
            (child_of w.id dag (find_rescue_dag exists dag))
            db.next_id
            db.dags
  unfolding decide create_rescue rescue_row
  dags-decide exists sites dag w db =
      elim (Bool-cases (leb settings.error_max_rescue_attempts (count_rescue_chain db dag))) [
        | inl spent ↦ rw spent
        | inr left ↦ elim (Bool-cases (is_below_threshold settings dag)) [
          | inl below ↦ rw (left, below)
          | inr above ↦ rw (left, above)
        ]
      ]

  -- The database in which the decision is taken has the DAGs of the one before.
  count_rescue_chain-banned :
      (has : Bool) (reason : String) (dag : DagRow) (w : ℕ) (sites : List String) (db : Db)
      → count_rescue_chain (ban_sites settings now has reason w sites (record_event dag db)) dag
        ≡ count_rescue_chain db dag
  unfolding count_rescue_chain record_event HasDagsOf
  count_rescue_chain-banned has reason dag w sites db =
      rescue_chain-dags db (ban_sites settings now has reason w sites (record_event dag db))
        (ban_sites-HasDagsOf has reason w sites (record_event dag db)).0 dag.id dag

  module _ (exists : String → Bool) (has : Bool) (post_data : List PostEntry) where
    -- A rescue comes exactly where the chain of rescues is shorter than the maximum and the part of
    -- the failed work units is below the threshold, in percent.
    pub handle_dag_completion-rescue_iff :
        (dag : DagRow) (r : RequestRow) (w : WorkflowRow) (db : Db)
        → let result = handle_dag_completion settings now exists has post_data dag r w db in
          (result.1.action ≡ rescue) ↔ (
            (count_rescue_chain db dag < settings.error_max_rescue_attempts)
            × (100 * failed_work_units dag
                < settings.error_hold_threshold * max dag.total_work_units 1))
    unfolding handle_dag_completion
    handle_dag_completion-rescue_iff dag r w db =
        let reason = append "High failure rate for " r.request_name in
        let sites = analyze_site_failures post_data in
        let banned = ban_sites settings now has reason w.id sites (record_event dag db) in
        let same = count_rescue_chain-banned has reason dag w.id sites db in
        ground (arith, decide-rescue_iff exists sites dag w banned)

    -- A rescue adds one DAG under a fresh identifier: the child of the one that ended, with its files,
    -- its totals and its completed units, with the rescue file that was found, and ready; a hold adds
    -- none. No other DAG changes.
    pub dags-handle_dag_completion :
        (dag : DagRow) (r : RequestRow) (w : WorkflowRow) (db : Db)
        → let result = handle_dag_completion settings now exists has post_data dag r w db in
          result.0.dags
          ≡ with_child result.1.action
              (child_of w.id dag (find_rescue_dag exists dag))
              db.next_id
              db.dags
    unfolding handle_dag_completion HasDagsOf record_event
    dags-handle_dag_completion dag r w db =
        let reason = append "High failure rate for " r.request_name in
        let sites = analyze_site_failures post_data in
        let banned = ban_sites settings now has reason w.id sites (record_event dag db) in
        let same = ban_sites-HasDagsOf has reason w.id sites (record_event dag db) in
        let action = (decide settings now exists sites dag w banned).1.action in
        let row = child_of w.id dag (find_rescue_dag exists dag) in
        dags-decide exists sites dag w banned
        ∙ ap (with_child action row banned.next_id) same.0
        ∙ ap (λ id. with_child action row id db.dags) same.1
