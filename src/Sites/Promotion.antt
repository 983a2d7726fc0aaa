-- ===== src/Sites/Promotion.antt =====
-- When a ban of one workflow becomes a ban of all.
use Prim.Native.String.{◌++◌ as append}
use condora.Base.{
  ℕ, String, Bool, true, List, [], ◌∷◌, ◌++◌, Option, none, some, ◌≡◌, ◌<◌, ◌&&◌, ◌||◌, ◌==◌, leb,
  ltb, select, any, contains, string_eq, nat_eq, inl, inr, refl, arith, Bool-cases,
}
use condora.Base.Texts.{decimal}
use condora.Rows.{SiteBanRow}
use condora.Config.{Settings}
use condora.Repository.{Db}
use condora.Sites.{
  is_null, is_active, create_site_ban, get_active_bans_for_site,
  count_active_workflow_bans_for_site, ban_row, check_promotion, days_of, add_ban, ban_site,
  get_banned_sites,
}
use condora.Sites.Banned.{binds, contains-get_banned_sites}

any-append :
    (p : SiteBanRow → Bool) (xs ys : List SiteBanRow) → any p (xs ++ ys) ≡ (any p xs || any p ys)
any-append p [] ys = refl
any-append p (x ∷ xs) ys = ground (arith, any-append p xs ys)

-- An active system-wide ban of the site binds every workflow.
any-system :
    (now : ℕ) (s : String) (workflow_id : Option ℕ) (bans : List SiteBanRow)
    → any (λ b. is_null b.workflow_id) (select (λ b. b.site_name == s && is_active now b) bans)
      ≡ true
    → any (λ b. b.site_name == s && (binds workflow_id b && is_active now b)) bans ≡ true
any-system now s workflow_id [] h = h
any-system now s none (b ∷ bans) h = ground (arith, any-system now s none bans)
any-system now s (some w) (b ∷ bans) h = ground (arith, any-system now s (some w) bans)

banned-system :
    (now : ℕ) (s : String) (workflow_id : Option ℕ) (db : Db)
    → any (λ b. is_null b.workflow_id) (get_active_bans_for_site now s db) ≡ true
    → contains s (get_banned_sites now workflow_id db) ≡ true
unfolding get_active_bans_for_site
banned-system now s workflow_id db h =
    rw contains-get_banned_sites (any-system now s workflow_id db.bans h)

module _ (settings : Settings) (now : ℕ) where
  binds-system :
      (s reason : String) (workflow_id : Option ℕ) (days : ℕ)
      → binds workflow_id (ban_row now s none reason days) ≡ true
  binds-system s reason none days = refl
  binds-system s reason (some w) days = refl

  banned-create_site_ban :
      (s : String) (workflow_id : Option ℕ) (reason : String) (db : Db)
      → 0 < settings.site_ban_duration_days
      → contains s (
          get_banned_sites now workflow_id
            (create_site_ban (ban_row now s none reason settings.site_ban_duration_days) db))
        ≡ true
  unfolding create_site_ban is_active
  banned-create_site_ban s workflow_id reason db h =
      rw (contains-get_banned_sites, any-append)
        (ground (
          arith,
          string_eq.same_iff s s,
          binds-system s reason workflow_id settings.site_ban_duration_days,
        ))

  -- A promotion makes the site banned for every workflow exactly at the threshold.
  banned-check_promotion :
      (s : String) (workflow_id : Option ℕ) (db : Db)
      → 0 < settings.site_ban_duration_days
      → contains s (get_banned_sites now workflow_id (check_promotion settings now s db)) ≡ (
          contains s (get_banned_sites now workflow_id db)
          || leb settings.site_ban_promotion_threshold
              (count_active_workflow_bans_for_site now s db))
  unfolding check_promotion
  banned-check_promotion s workflow_id db h =
      elim (Bool-cases (
        ltb (count_active_workflow_bans_for_site now s db) settings.site_ban_promotion_threshold)) [
          | inl few ↦ rw few (ground arith)
          | inr many ↦
              elim (Bool-cases
                (any (λ b. is_null b.workflow_id) (get_active_bans_for_site now s db))) [
                  | inl there ↦
                      rw (many, there) (ground (arith, banned-system now s workflow_id db there))
                  | inr new ↦
                      rw
                        (
                          many,
                          new,
                          banned-create_site_ban s workflow_id
                              (append "Promoted: " (
                                append (decimal (count_active_workflow_bans_for_site now s db))
                                  " workflows banned"))
                              db h,
                        )
                        (ground arith)
                ]
        ]

  -- A ban of one workflow on a site that is known makes the site banned for another workflow exactly
  -- where it was so by then, or where the bans of that many workflows reach the threshold. Bans last
  -- at least a day.
  pub banned-ban_site :
      (s : String) (w : ℕ) (workflow_id : Option ℕ) (reason : String) (days : Option ℕ) (db : Db)
      → 0 < settings.site_ban_duration_days
      → contains s db.sites ≡ true
      → let created =
          create_site_ban (ban_row now s (some w) reason (days_of settings now days)) db in
        contains s
          (get_banned_sites now workflow_id (ban_site settings now s (some w) reason days db).0)
        ≡ (contains s (get_banned_sites now workflow_id created)
            || leb settings.site_ban_promotion_threshold
                (count_active_workflow_bans_for_site now s created))
  unfolding ban_site add_ban
  banned-ban_site s w workflow_id reason days db h known = rw known (
      banned-check_promotion s workflow_id
        (create_site_ban (ban_row now s (some w) reason (days_of settings now days)) db) h)
