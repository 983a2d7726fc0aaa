-- ===== src/Sites.antt =====
-- src/condora/core/site_manager.py: bans of sites for one workflow and for all, with the queries of
-- src/condora/db/repository.py on the bans. `now` is the database's clock.
pub mod Banned
pub mod Promotion
pub mod TempRses
mod Examples
use Prim.Native.Nat.{Ordering}
use Prim.Native.String.{compare, ◌++◌ as append}
use condora.Base.{
  ℕ, zero, suc, String, Bool, true, false, List, [], ◌∷◌, ◌++◌, map, Option, none, some, ◌+◌, ◌*◌,
  ◌&&◌, not, ◌==◌, ltb, select, any, contains, length, string_eq, nat_eq, if◌then◌else◌,
}
use condora.Base.Texts.{decimal}
use condora.Rows.{SiteBanRow}
use condora.Config.{Settings}
use condora.Repository.{Db, update_where}

abbrev pub is_null {ℓ} : {A : Type ℓ} → Option A → Bool
is_null none = true
is_null (some a) = false

-- `removed_at IS NULL AND expires_at > now()`
unfoldable pub is_active : ℕ → SiteBanRow → Bool
is_active now b = is_null b.removed_at && ltb now b.expires_at

unfoldable pub create_site_ban : SiteBanRow → Db → Db
create_site_ban row db = record db { bans = db.bans ++ row ∷ [] }

unfoldable pub get_active_bans_for_site : ℕ → String → Db → List SiteBanRow
unfolding is_active
get_active_bans_for_site now site_name db =
    select (λ b. b.site_name == site_name && is_active now b) db.bans

unfoldable pub get_active_system_bans : ℕ → Db → List SiteBanRow
unfolding is_active
get_active_system_bans now db = select (λ b. is_null b.workflow_id && is_active now b) db.bans

abbrev pub is_of : ℕ → Option ℕ → Bool
is_of workflow_id none = false
is_of workflow_id (some w) = w == workflow_id

unfoldable pub get_active_workflow_bans : ℕ → ℕ → Db → List SiteBanRow
unfolding is_active
get_active_workflow_bans now workflow_id db =
    select (λ b. is_of workflow_id b.workflow_id && is_active now b) db.bans

-- The distinct workflows of some bans; the system-wide ones have none.
unfoldable pub distinct_workflows : List SiteBanRow → List ℕ
distinct_workflows [] = []
distinct_workflows (b ∷ bans) =
    let rest = distinct_workflows bans in
    elim b.workflow_id [ none ↦ rest | some w ↦ if contains w rest then rest else w ∷ rest ]

unfoldable pub count_active_workflow_bans_for_site : ℕ → String → Db → ℕ
unfolding get_active_bans_for_site distinct_workflows
count_active_workflow_bans_for_site now site_name db =
    length (distinct_workflows (get_active_bans_for_site now site_name db))

-- Whether `remove_active_bans_for_site` touches a ban.
unfoldable pub is_removed_by : ℕ → String → Option ℕ → SiteBanRow → Bool
unfolding is_active
is_removed_by now site_name workflow_id b =
    (b.site_name == site_name && is_active now b)
    && elim workflow_id [ none ↦ true | some w ↦ is_of w b.workflow_id ]

-- The database, and the number of rows.
unfoldable pub remove_active_bans_for_site : ℕ → String → String → Option ℕ → Db → Db × ℕ
unfolding is_removed_by update_where
remove_active_bans_for_site now site_name removed_by workflow_id db = (
  record db {
    bans =
        update_where (is_removed_by now site_name workflow_id)
          (λ b. record b { removed_at = some now; removed_by = removed_by }) db.bans;
  },
  length (select (is_removed_by now site_name workflow_id) db.bans),
)

-- A ban that expires after some days.
abbrev pub ban_row : ℕ → String → Option ℕ → String → ℕ → SiteBanRow
ban_row now site_name workflow_id reason days = record {
  site_name = site_name;
  workflow_id = workflow_id;
  reason = reason;
  expires_at = now + days * 86400;
  removed_at = none;
  removed_by = "";
}

module _ (settings : Settings) (now : ℕ) where
  unfoldable pub check_promotion : String → Db → Db
  unfolding count_active_workflow_bans_for_site get_active_bans_for_site create_site_ban
  check_promotion site_name db =
      if ltb (count_active_workflow_bans_for_site now site_name db)
        settings.site_ban_promotion_threshold
      then db
      else if any (λ b. is_null b.workflow_id) (get_active_bans_for_site now site_name db)
      then db
      else create_site_ban
          (ban_row now site_name none
            (append "Promoted: " (
              append (decimal (count_active_workflow_bans_for_site now site_name db))
                " workflows banned"))
            settings.site_ban_duration_days)
          db

  -- `duration_days or self.settings.site_ban_duration_days`
  abbrev pub days_of : Option ℕ → ℕ
  days_of none = settings.site_ban_duration_days
  days_of (some zero) = settings.site_ban_duration_days
  days_of (some (suc d)) = suc d

  -- The ban of a site that is known, and the promotion that it may bring.
  unfoldable pub add_ban : SiteBanRow → Db → Db
  unfolding create_site_ban check_promotion
  add_ban ban db =
      if is_null ban.workflow_id
      then create_site_ban ban db
      else check_promotion ban.site_name (create_site_ban ban db)

  -- The database, and the row of the ban, or none for a site that is not known.
  unfoldable pub ban_site : String → Option ℕ → String → Option ℕ → Db → Db × Option SiteBanRow
  unfolding add_ban
  ban_site site_name workflow_id reason duration_days db =
      if contains site_name db.sites
      then (
        add_ban (ban_row now site_name workflow_id reason (days_of duration_days)) db,
        some (ban_row now site_name workflow_id reason (days_of duration_days)),
      )
      else (db, none)

-- `sorted(sites)` of a set: each name once, in the order of the texts.
unfoldable pub insert_sorted : String → List String → List String
insert_sorted s [] = s ∷ []
insert_sorted s (t ∷ ts) =
    let rest = insert_sorted s ts in
    elim (compare s t) [ Ordering.lt ↦ s ∷ t ∷ ts | Ordering.eq ↦ t ∷ ts | Ordering.gt ↦ t ∷ rest ]

unfoldable pub sorted_set : List String → List String
unfolding insert_sorted
sorted_set [] = []
sorted_set (s ∷ ss) = insert_sorted s (sorted_set ss)

unfoldable pub get_banned_sites : ℕ → Option ℕ → Db → List String
unfolding sorted_set get_active_system_bans get_active_workflow_bans
get_banned_sites now workflow_id db = sorted_set (
    map (λ b. b.site_name) (get_active_system_bans now db) ++ elim workflow_id [
      | none ↦ []
      | some w ↦ map (λ b. b.site_name) (get_active_workflow_bans now w db)
    ])

unfoldable pub remove_ban : ℕ → String → String → Option ℕ → Db → Db × ℕ
unfolding remove_active_bans_for_site
remove_ban now site_name removed_by workflow_id db =
    remove_active_bans_for_site now site_name removed_by workflow_id db
