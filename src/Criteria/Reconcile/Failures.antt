-- ===== src/Criteria/Reconcile/Failures.antt =====
-- What a reconciliation leaves alone, and when the next one is skipped.
use elp_gemini.Base.{
  Text, codes, text_eq, ℕ, ◌≡◌, refl, sym, ap, ◌∙◌, inl, inr, Bool, true, false, ◌&&◌, not, none,
  some, if◌then◌else◌, Bool-cases,
}
use elp_gemini.AppState.{Rows, get, set_many}
use elp_gemini.AppState.Laws.{get-set, get-set_many, last_value}
use elp_gemini.Base.Dicts.{in_texts, opt_is, text_eq_refl}
use elp_gemini.Criteria.{Outcome, raised, done, AliasMap, Fault}
use elp_gemini.Criteria.Table.Groups.{UniqueIds}
use elp_gemini.Criteria.Reconcile.{
  Cloud, Local, sync, concluded, migrated, migrate_from_legacy_manifest, reconcile, is_current,
  fetched_for_guard, or_before, synced_state, failed_state, legacy_metadata_store_name,
  key_api_key_hash, key_sync_state, key_sync_error, key_last_alias_map_updated_at,
  migration_marker_key,
}
use elp_gemini.Criteria.Reconcile.Rebuild.{>>=-eq-done}
use elp_gemini.Criteria.Reconcile.Laws.{Synced, reconcile-Synced}

migrate-get :
    (cloud : Cloud) (rows rows' : Rows) (key : Text)
    → text_eq migration_marker_key key ≡ false
    → migrate_from_legacy_manifest cloud rows ≡ done rows'
    → get rows' key ≡ get rows key
unfolding migrate_from_legacy_manifest
migrate-get cloud rows rows' key n h =
    elim (Bool-cases (opt_is (get rows migration_marker_key) (codes "true"))) [
      | inl y ↦ ap (λ x. get x key) (sym (done_eq (rw y at h)))
      | inr m ↦
          let s = >>=-eq-done cloud.store_names _ (rw m at h) in
          let d =
            >>=-eq-done
              (if in_texts legacy_metadata_store_name s.0 then cloud.delete_store else done tt) _
              s.2 in
          ap (λ x. get x key) (sym (done_eq d.2))
          ∙ get-set rows migration_marker_key key (some (codes "true"))
          ∙ rw n refl
    ]
  where
    done_eq : {a b : Rows} → done a ≡ done b → a ≡ b
    done_eq e = cc

migrated-get :
    (cloud : Cloud) (before : Local) (key : Text)
    → text_eq migration_marker_key key ≡ false
    → get (migrated cloud before).app_state key ≡ get before.app_state key
unfolding migrated
migrated-get cloud before key n =
    at (migrate_from_legacy_manifest cloud before.app_state)
      (λ rows' h. migrate-get cloud before.app_state rows' key n h)
  where
    at :
        (o : Outcome Rows)
        → ((rows' : Rows) → o ≡ done rows' → get rows' key ≡ get before.app_state key)
        → get (or_before before.app_state o) key ≡ get before.app_state key
    at (raised e) h = refl
    at (done rows') h = h rows' refl

-- A key with which neither the migration nor the handler of an exception has to do.
abbrev pub Untouched : Text → Type 0
Untouched key =
    (text_eq migration_marker_key key ≡ false)
    × (text_eq key_sync_state key ≡ false)
    × (text_eq key_sync_error key ≡ false)

failed-get :
    (cloud : Cloud) (key_changed : Bool) (e : Fault) (rows : Rows) (key : Text)
    → Untouched key
    → get (set_many rows (failed_state cloud key_changed e)) key ≡ get rows key
unfolding last_value
failed-get cloud key_changed e rows key u =
    get-set_many rows (failed_state cloud key_changed e) key ∙ rw (u.1, u.2) refl

concluded-failed :
    (cloud : Cloud) (swallow_errors key_changed : Bool) (before : Local) (o : Outcome (Local × ℕ))
    → (concluded cloud swallow_errors key_changed before o).1.is_ok ≡ false
    → ((concluded cloud swallow_errors key_changed before o).0.criteria ≡ before.criteria)
      × ((key : Text)
          → Untouched key
          → get (concluded cloud swallow_errors key_changed before o).0.app_state key
            ≡ get before.app_state key)
unfolding concluded
concluded-failed cloud swallow_errors key_changed before (done (after, n)) h = cc
concluded-failed cloud swallow_errors key_changed before (raised e) h =
    elim (Bool-cases (swallow_errors && not key_changed)) [
      | inl y ↦ (rw y refl, λ key u. rw y refl)
      | inr n ↦ (rw n refl, λ key u. rw n (failed-get cloud key_changed e before.app_state key u))
    ]

-- A run that is skipped or fails leaves the table of criteria as it was, and every key of the
-- application's state but the marker of the migration, the state and the error of the synchronisation.
pub reconcile_failed :
    (cloud : Cloud) (swallow_errors : Bool) (before : Local)
    → (reconcile cloud swallow_errors before).1.is_ok ≡ false
    → ((reconcile cloud swallow_errors before).0.criteria ≡ before.criteria)
      × ((key : Text)
          → Untouched key
          → get (reconcile cloud swallow_errors before).0.app_state key ≡ get before.app_state key)
unfolding reconcile migrated
reconcile_failed cloud swallow_errors before h =
    elim (Bool-cases (is_current before.app_state (fetched_for_guard cloud before.app_state))) [
      | inl y ↦ (rw y refl, λ key u. rw y refl)
      | inr n ↦
          let key_changed =
            not (opt_is (get before.app_state key_api_key_hash) cloud.current_hash) in
          let f =
            concluded-failed cloud swallow_errors key_changed (migrated cloud before)
              (sync cloud (fetched_for_guard cloud before.app_state) (migrated cloud before))
              (rw n at h) in
          (rw n (f.0), λ key u. rw n (f.1 key u ∙ migrated-get cloud before key u.0))
    ]

skip :
    (later : Cloud) (swallow_later : Bool) (after : Local) (name : Text) (m : AliasMap)
    → get after.app_state key_api_key_hash ≡ some later.current_hash
    → get after.app_state key_sync_state ≡ some (codes "ok")
    → get after.app_state migration_marker_key ≡ some (codes "true")
    → later.guard_fetch ≡ done (some (name, m))
    → get after.app_state key_last_alias_map_updated_at ≡ some m.updated_at
    → reconcile later swallow_later after
      ≡ (after, record { is_ok = false; skipped = true; error = none; row_count = 0 })
unfolding reconcile fetched_for_guard
skip later swallow_later after name m hash state marker found recorded =
    simp (hash, state, marker, found, recorded, text_eq_refl)

-- After a run that ends well, with the migration done, a later run with the same key that finds the
-- alias map of the time that was recorded is skipped and changes nothing.
pub reconcile_again :
    (cloud later : Cloud) (swallow_errors swallow_later : Bool) (before : Local) (name : Text)
    (m : AliasMap)
    → UniqueIds before.criteria
    → (reconcile cloud swallow_errors before).1.is_ok ≡ true
    → get (reconcile cloud swallow_errors before).0.app_state migration_marker_key
      ≡ some (codes "true")
    → later.current_hash ≡ cloud.current_hash
    → later.guard_fetch ≡ done (some (name, m))
    → get (reconcile cloud swallow_errors before).0.app_state key_last_alias_map_updated_at
      ≡ some m.updated_at
    → reconcile later swallow_later (reconcile cloud swallow_errors before).0 ≡ (
      (reconcile cloud swallow_errors before).0,
      record { is_ok = false; skipped = true; error = none; row_count = 0 },
    )
unfolding last_value
reconcile_again cloud later swallow_errors swallow_later before name m u ok_run marker same found
      recorded =
    skip later swallow_later (reconcile cloud swallow_errors before).0 name m
      (at key_api_key_hash ∙ ap some (sym same)) (at key_sync_state) marker found recorded
  where
    s :
        Synced cloud
          (fetched_for_guard cloud before.app_state)
          (migrated cloud before)
          (reconcile cloud swallow_errors before).0
    s = reconcile-Synced cloud swallow_errors before u ok_run

    at :
        (key : Text)
        → get (reconcile cloud swallow_errors before).0.app_state key
          ≡ last_value
              (get (migrated cloud before).app_state key)
              key
              (synced_state cloud s.updated_at)
    at key =
        ap (λ x. get x key) s.state
        ∙ get-set_many (migrated cloud before).app_state (synced_state cloud s.updated_at) key
