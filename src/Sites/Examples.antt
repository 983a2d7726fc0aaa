-- ===== src/Sites/Examples.antt =====
-- The theorems on bans, at small inputs.
use condora.Base.{
  false, none, some, ◌≡◌, ◌&&◌, ◌||◌, ◌==◌, any, contains, leb, string_eq, refl, arith,
}
use condora.Enums.{RequestStatus, DagStatus}
use condora.Config.{default_settings}
use condora.Sites.{
  is_active, create_site_ban, count_active_workflow_bans_for_site, ban_row, ban_site,
  get_banned_sites, remove_ban,
}
use condora.Sites.Banned.{binds, contains-get_banned_sites, contains-remove_ban}
use condora.Sites.Promotion.{banned-ban_site}
use condora.Repository.{Db}
use condora.Samples.{sample_db}

abbrev db : Db
db = sample_db RequestStatus.active DagStatus.running

contains-get_banned_sites_example :
    contains "T2_A" (get_banned_sites 1000 (some 3) db)
    ≡ any (λ b. b.site_name == "T2_A" && (binds (some 3) b && is_active 1000 b)) db.bans
contains-get_banned_sites_example = contains-get_banned_sites 1000 (some 3) db "T2_A"

contains-remove_ban_example :
    contains "T2_B" (get_banned_sites 1000 (some 3) (remove_ban 1000 "T2_B" "operator" none db).0)
    ≡ false
contains-remove_ban_example = contains-remove_ban 1000 "T2_B" "T2_B" "operator" (some 3) db

-- The third workflow that bans the site.
banned-ban_site_example :
    contains "T2_A"
      (get_banned_sites 1000 (some 9) (ban_site default_settings 1000 "T2_A" (some 5) "" none db).0)
    ≡ (contains "T2_A"
          (get_banned_sites 1000 (some 9) (create_site_ban (ban_row 1000 "T2_A" (some 5) "" 7) db))
        || leb 3 (
            count_active_workflow_bans_for_site 1000 "T2_A"
              (create_site_ban (ban_row 1000 "T2_A" (some 5) "" 7) db)))
banned-ban_site_example =
    banned-ban_site default_settings 1000 "T2_A" 5 (some 9) "" none db (omega arith) refl
