-- ===== src/Lifecycle/Failure.antt =====
-- Where a request goes when one of its DAGs ended with failures.
use Prim.Native.String.{◌++◌ as append}
use condora.Base.{
  Bool-cases, ap, ℕ, String, Bool, true, false, List, [], ◌∷◌, map, none, some, ◌≡◌, ◌∙◌, ◌*◌, max,
  ltb, ◌&&◌, inl, inr, refl, arith, if◌then◌else◌,
}
use condora.Enums.{RequestStatus}
use condora.Rows.{RequestRow, WorkflowRow, DagRow}
use condora.Config.{Settings}
use condora.Repository.{Db, update_request}
use condora.Effects.{State}
use condora.Sites.{ban_row, create_site_ban, check_promotion, add_ban, ban_site}
use condora.ErrorHandler.{
  rescue, hold, count_rescue_chain, failed_work_units, analyze_site_failures, record_event,
  ban_sites, decide, handle_dag_completion,
}
use condora.ErrorHandler.Completion.{handle_dag_completion-rescue_iff}
use condora.Lifecycle.Resubmit.{create_rescue}
use condora.Lifecycle.Transitions.{transition}
use condora.Lifecycle.Evaluate.{FailureFiles, move_failed, handle_single_dag_failure}
use condora.Lifecycle.View.{views, move_view, map-update_where, view_of}

module _ (settings : Settings) (now : ℕ) where
  requests-check_promotion :
      (s : String) (db : Db) → (check_promotion settings now s db).requests ≡ db.requests
  unfolding check_promotion create_site_ban
  requests-check_promotion s db = ground arith

  requests-ban_site :
      (s reason : String) (w : ℕ) (db : Db)
      → (ban_site settings now s (some w) reason none db).0.requests ≡ db.requests
  unfolding ban_site add_ban create_site_ban
  requests-ban_site s reason w db = ground (
    arith,
    requests-check_promotion s
        (create_site_ban (ban_row now s (some w) reason settings.site_ban_duration_days) db),
  )

  requests-ban_sites :
      (has : Bool) (reason : String) (w : ℕ) (sites : List String) (db : Db)
      → (ban_sites settings now has reason w sites db).requests ≡ db.requests
  unfolding ban_sites
  requests-ban_sites has reason w [] db = refl
  requests-ban_sites false reason w (s ∷ sites) db = refl
  requests-ban_sites true reason w (s ∷ sites) db =
      requests-ban_sites true reason w sites (ban_site settings now s (some w) reason none db).0
      ∙ requests-ban_site s reason w db

  requests-decide :
      (exists : String → Bool) (sites : List String) (d : DagRow) (w : WorkflowRow) (db : Db)
      → (decide settings now exists sites d w db).0.requests ≡ db.requests
  unfolding decide create_rescue
  requests-decide exists sites d w db = ground arith

  pub requests-handle_dag_completion :
      (files : FailureFiles) (has : Bool) (r : RequestRow) (w : WorkflowRow) (d : DagRow) (db : Db)
      → let result =
          handle_dag_completion settings now files.exists has
            (files.post_data d.submit_dir)
            d
            r
            w
            db in
        result.0.requests ≡ db.requests
  unfolding handle_dag_completion record_event
  requests-handle_dag_completion files has r w d db =
      let sites = analyze_site_failures (files.post_data d.submit_dir) in
      let reason = append "High failure rate for " r.request_name in
      requests-decide files.exists sites d w
        (ban_sites settings now has reason w.id sites (record_event d db))
      ∙ requests-ban_sites has reason w.id sites (record_event d db)

  -- A DAG that ended with failures moves its request to RESUBMITTING where its chain of rescues is
  -- shorter than the maximum and its failed work units are below the threshold, and to HELD otherwise.
  -- No other request moves.
  pub views-handle_single_dag_failure :
      (files : FailureFiles) (has : Bool) (r : RequestRow) (w : WorkflowRow) (d : DagRow)
      (s : State)
      → views (handle_single_dag_failure settings now (some files) has r w d s).1
        ≡ map
            (move_view now r.request_name (
              if ltb (count_rescue_chain s.db d) settings.error_max_rescue_attempts
                && ltb
                    (100 * failed_work_units d)
                    (settings.error_hold_threshold * max d.total_work_units 1)
              then RequestStatus.resubmitting
              else RequestStatus.held))
            (views s)
  unfolding handle_single_dag_failure transition update_request
  views-handle_single_dag_failure files has r w d s =
      let post_data = files.post_data d.submit_dir in
      let iff =
        handle_dag_completion-rescue_iff settings now files.exists has post_data d r w s.db in
      let result = handle_dag_completion settings now files.exists has post_data d r w s.db in
      let s' : State = record s { db = result.0 } in
      let same = ap (map view_of) (requests-handle_dag_completion files has r w d s.db) in
      elim (Bool-cases (
        ltb (count_rescue_chain s.db d) settings.error_max_rescue_attempts
        && ltb (100 * failed_work_units d)
            (settings.error_hold_threshold * max d.total_work_units 1))) [
              | inl rescued ↦
                  let at : result.1.action ≡ rescue = iff.1 (ground arith) in
                  rw rescued (
                    ap (λ a. views (move_failed settings now r.request_name a s').1) at
                    ∙ map-update_where now r.request_name RequestStatus.resubmitting
                        result.0.requests
                    ∙ ap (map (move_view now r.request_name RequestStatus.resubmitting)) same)
              | inr held ↦
                  let at : result.1.action ≡ hold = ground arith in
                  rw held (
                    ap (λ a. views (move_failed settings now r.request_name a s').1) at
                    ∙ map-update_where now r.request_name RequestStatus.held result.0.requests
                    ∙ ap (map (move_view now r.request_name RequestStatus.held)) same)
            ]
