-- ===== src/Sites/Banned.antt =====
-- Which sites a workflow may not use, and what the removal of a ban changes.
use text.Mathlib.TextEquality.{path_by_compare}
use condora.Base.{
  ℕ, String, Bool, false, List, [], ◌∷◌, ◌++◌, map, Option, none, some, ◌≡◌, ◌&&◌, ◌||◌, not, ◌==◌,
  select, any, contains, string_eq, nat_eq, refl, arith,
}
use condora.Rows.{SiteBanRow}
use condora.Repository.{Db, update_where}
use condora.Sites.{
  is_null, is_of, is_active, get_active_system_bans, get_active_workflow_bans, is_removed_by,
  remove_active_bans_for_site, insert_sorted, sorted_set, get_banned_sites, remove_ban,
}

contains-insert_sorted :
    (a s : String) (ts : List String)
    → contains a (insert_sorted s ts) ≡ ((s == a) || contains a ts)
unfolding insert_sorted
contains-insert_sorted a s [] = refl
contains-insert_sorted a s (t ∷ ts) =
    ground (arith, contains-insert_sorted a s ts, path_by_compare s t)

contains-sorted_set : (a : String) (ss : List String) → contains a (sorted_set ss) ≡ contains a ss
unfolding sorted_set
contains-sorted_set a [] = refl
contains-sorted_set a (s ∷ ss) = rw (contains-insert_sorted, contains-sorted_set a ss)

contains-append :
    (a : String) (xs ys : List String) → contains a (xs ++ ys) ≡ (contains a xs || contains a ys)
contains-append a [] ys = refl
contains-append a (x ∷ xs) ys = ground (arith, contains-append a xs ys)

contains-sites :
    (a : String) (p : SiteBanRow → Bool) (bans : List SiteBanRow)
    → contains a (map (λ b. b.site_name) (select p bans)) ≡ any (λ b. b.site_name == a && p b) bans
contains-sites a p [] = refl
contains-sites a p (b ∷ bans) = ground (arith, contains-sites a p bans)

any-or :
    (p q : SiteBanRow → Bool) (bans : List SiteBanRow)
    → (any p bans || any q bans) ≡ any (λ b. p b || q b) bans
any-or p q [] = refl
any-or p q (b ∷ bans) = ground (arith, any-or p q bans)

-- A ban that binds a workflow: its own, or a system-wide one.
abbrev pub binds : Option ℕ → SiteBanRow → Bool
binds none b = is_null b.workflow_id
binds (some w) b = is_null b.workflow_id || is_of w b.workflow_id

any-false : {A : Type 0} (xs : List A) → any (λ _. false) xs ≡ false
any-false [] = refl
any-false (x ∷ xs) = rw (any-false xs)

any-ext :
    (p q : SiteBanRow → Bool)
    → ((b : SiteBanRow) → p b ≡ q b)
    → (bans : List SiteBanRow) → any p bans ≡ any q bans
any-ext p q h [] = refl
any-ext p q h (b ∷ bans) = rw (h b, any-ext p q h bans)

-- A site is among the banned ones exactly where one of the bans is of this site, binds the workflow
-- and is active: not removed, and not expired.
pub contains-get_banned_sites :
    (now : ℕ) (workflow_id : Option ℕ) (db : Db) (s : String)
    → contains s (get_banned_sites now workflow_id db)
      ≡ any (λ b. b.site_name == s && (binds workflow_id b && is_active now b)) db.bans
unfolding get_banned_sites get_active_system_bans get_active_workflow_bans is_active
contains-get_banned_sites now none db s =
    rw (contains-sorted_set, contains-append, contains-sites) (ground arith)
contains-get_banned_sites now (some w) db s =
    rw (contains-sorted_set, contains-append, contains-sites, contains-sites, any-or)
      (any-ext
        (λ b.
          (b.site_name == s && (is_null b.workflow_id && is_active now b))
          || (b.site_name == s && (is_of w b.workflow_id && is_active now b)))
        (λ b. b.site_name == s && (binds (some w) b && is_active now b)) (λ b. ground arith)
        db.bans)

-- A removed ban is not active.
any-update_where :
    (now : ℕ) (s t removed_by : String) (q : SiteBanRow → Bool) (bans : List SiteBanRow)
    → any
        (λ b. b.site_name == t && (q b && is_active now b))
        (update_where
          (is_removed_by now s none)
          (λ b. record b { removed_at = some now; removed_by = removed_by })
          bans)
      ≡ (not (s == t) && any (λ b. b.site_name == t && (q b && is_active now b)) bans)
unfolding update_where is_removed_by is_active
any-update_where now s t removed_by q [] = ground arith
any-update_where now s t removed_by q (b ∷ bans) = ground (
  arith,
  any-update_where now s t removed_by q bans,
  string_eq.same_iff b.site_name s,
  string_eq.same_iff b.site_name t,
  string_eq.same_iff s t,
)

-- The removal of a site's bans, with no workflow named, frees the site for every workflow, and
-- changes nothing for any other site.
pub contains-remove_ban :
    (now : ℕ) (s t removed_by : String) (workflow_id : Option ℕ) (db : Db)
    → contains t (get_banned_sites now workflow_id (remove_ban now s removed_by none db).0)
      ≡ (not (s == t) && contains t (get_banned_sites now workflow_id db))
unfolding remove_ban remove_active_bans_for_site
contains-remove_ban now s t removed_by workflow_id db =
    rw (contains-get_banned_sites, contains-get_banned_sites)
      (any-update_where now s t removed_by (binds workflow_id) db.bans)
