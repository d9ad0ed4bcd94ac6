-- ===== src/Criteria/Reconcile/Laws.antt =====
-- The outcome of a reconciliation.
use elp_gemini.Base.{
  Text, ℕ, ◌≡◌, refl, ap, ◌∙◌, ◌⊎◌, inl, inr, Bool, true, false, not, Option, none, some, List,
  arith, if◌then◌else◌, Bool-cases,
}
use mathlib.Core.Option
use elp_gemini.AppState.{get, set_many}
use elp_gemini.Base.Dicts.{in_texts, opt_is, lookup, values}
use elp_gemini.Criteria.{Outcome, raised, done, Document, AliasMapEntry, AliasMap}
use elp_gemini.Criteria.Table.Groups.{UniqueIds, UniqueStable}
use elp_gemini.Criteria.Table.View.{Shown, view}
use elp_gemini.Criteria.Clean.{criteria_documents, stable_ids_by_document, clean}
use elp_gemini.Criteria.Clean.Laws.{clean-lookup, target_entry}
use elp_gemini.Criteria.Reconcile.{
  Cloud, Local, ReconcileResult, rebuild, store_map, sync, concluded, migrated, reconcile,
  is_current, fetched_for_guard, or_fetch, fetched_map, synced_state, key_api_key_hash,
}
use elp_gemini.Criteria.Reconcile.Rebuild.{
  shown_entry, >>=-eq-done, rebuild-view, rebuild-UniqueStable,
}

-- The remote store as a map from stable ids: each criteria document with its entry.
unfoldable pub remote_view : Cloud → List Document → Option (Text × AliasMap) → Text → Option Shown
remote_view cloud docs fetched k =
    if in_texts k (values (stable_ids_by_document cloud.digest docs))
    then some (
        shown_entry cloud.parse_time
          (target_entry cloud.entry_time (fetched_map cloud.empty_time fetched).entries k))
    else none

-- What a synchronisation that goes through has read and written.
pub record Synced (cloud : Cloud) (guarded : Option (Text × AliasMap)) (before after : Local)
    : Type 0 where
  pub all_docs : List Document
  pub listed : cloud.listing ≡ done all_docs
  pub fetched : Option (Text × AliasMap)
  pub found : or_fetch cloud.fetch guarded ≡ done fetched
  pub is_remote :
      (k : Text) → view after.criteria k ≡ remote_view cloud (criteria_documents all_docs) fetched k
  pub single : UniqueStable after.criteria
  pub updated_at : Text
  pub state : after.app_state ≡ set_many before.app_state (synced_state cloud updated_at)

sync-Synced :
    (cloud : Cloud) (guarded : Option (Text × AliasMap)) (before after : Local) (n : ℕ)
    → UniqueIds before.criteria
    → sync cloud guarded before ≡ done (after, n)
    → Synced cloud guarded before after
unfolding sync remote_view
sync-Synced cloud guarded before after n u h =
    let a = >>=-eq-done cloud.listing _ h in
    let docs = criteria_documents a.0 in
    let f = >>=-eq-done (or_fetch cloud.fetch guarded) _ a.2 in
    let entries = (fetched_map cloud.empty_time f.0).entries in
    let c =
      >>=-eq-done (clean cloud.entry_time (stable_ids_by_document cloud.digest docs) docs entries) _
        f.2 in
    let m = >>=-eq-done (store_map cloud f.0 c.0) _ c.2 in
    let r =
      >>=-eq-done
        (rebuild cloud (stable_ids_by_document cloud.digest docs) c.0 before.criteria docs) _ m.2 in
    let l = clean-lookup cloud.digest cloud.entry_time docs entries in
    let cleaned : c.0 ≡ l.0 = ground (arith, c.1, l.1) in
    let rows : after.criteria ≡ r.0 = ground (arith, r.2) in
    record {
      all_docs = a.0;
      listed = a.1;
      fetched = f.0;
      found = f.1;
      is_remote = λ k.
          ap (λ x. view x k) rows
          ∙ rebuild-view cloud docs c.0 before.criteria r.0 u r.1 k
          ∙ at k c.0 (in_texts k (values (stable_ids_by_document cloud.digest docs)))
              (target_entry cloud.entry_time entries k) (ap (lookup k) cleaned ∙ l.2 k);
      single = λ k. rw rows (rebuild-UniqueStable cloud docs c.0 before.criteria r.0 u r.1 k);
      updated_at = m.0;
      state = ground (arith, r.2);
    }
  where
    at :
        (k : Text) (cleaned : List (Text × AliasMapEntry)) (b : Bool) (e : AliasMapEntry)
        → lookup k cleaned ≡ (if b then some e else none)
        → (if b then Option.map (shown_entry cloud.parse_time) (lookup k cleaned) else none)
          ≡ (if b then some (shown_entry cloud.parse_time e) else none)
    at k cleaned true e h = ap (Option.map (shown_entry cloud.parse_time)) h
    at k cleaned false e h = refl

concluded-ok :
    (cloud : Cloud) (swallow_errors key_changed : Bool) (before : Local) (o : Outcome (Local × ℕ))
    → (concluded cloud swallow_errors key_changed before o).1.is_ok ≡ true
    → (n : ℕ) × (o ≡ done ((concluded cloud swallow_errors key_changed before o).0, n))
unfolding concluded
concluded-ok cloud swallow_errors key_changed before (raised e) h = cc
concluded-ok cloud swallow_errors key_changed before (done (after, n)) h = (n, refl)

-- What a run that ends well has done.
pub reconcile-Synced :
    (cloud : Cloud) (swallow_errors : Bool) (before : Local)
    → UniqueIds before.criteria
    → (reconcile cloud swallow_errors before).1.is_ok ≡ true
    → Synced cloud
        (fetched_for_guard cloud before.app_state)
        (migrated cloud before)
        (reconcile cloud swallow_errors before).0
unfolding reconcile migrated
reconcile-Synced cloud swallow_errors before u h =
    let guarded = fetched_for_guard cloud before.app_state in
    at (Bool-cases (is_current before.app_state guarded)) h
  where
    key_changed : Bool
    key_changed = not (opt_is (get before.app_state key_api_key_hash) cloud.current_hash)

    ended : Local × ReconcileResult
    ended =
        concluded cloud swallow_errors key_changed (migrated cloud before)
          (sync cloud (fetched_for_guard cloud before.app_state) (migrated cloud before))

    at :
        (is_current before.app_state (fetched_for_guard cloud before.app_state) ≡ true)
          ⊎ (is_current before.app_state (fetched_for_guard cloud before.app_state) ≡ false)
        → (if is_current before.app_state (fetched_for_guard cloud before.app_state)
            then (before, record { is_ok = false; skipped = true; error = none; row_count = 0 })
            else ended).1.is_ok
          ≡ true
        → Synced cloud
            (fetched_for_guard cloud before.app_state)
            (migrated cloud before)
            (if is_current before.app_state (fetched_for_guard cloud before.app_state)
              then (before, record { is_ok = false; skipped = true; error = none; row_count = 0 })
              else ended).0
    at (inl y) h = absurd (clash (rw y at h))
      where
        clash : false ≡ true → ⊥
        clash e = cc
    at (inr n) h =
        let h' : ended.1.is_ok ≡ true = rw n at h in
        let d =
          concluded-ok cloud swallow_errors key_changed (migrated cloud before)
            (sync cloud (fetched_for_guard cloud before.app_state) (migrated cloud before)) h' in
        rw n (
          sync-Synced cloud (fetched_for_guard cloud before.app_state) (migrated cloud before)
            ended.0 d.0 u d.1)
