-- ===== src/Criteria/Reconcile/Outcomes.antt =====
-- What a reconciliation guarantees, when it goes through and when it does not.
use elp_gemini.Base.{
  Text, ◌≡◌, refl, sym, ◌∙◌, inl, inr, Bool, true, false, ◌&&◌, Option, none, some, List, arith,
  if◌then◌else◌, Bool-cases, length, all,
}
use elp_gemini.AppState.{set_many}
use elp_gemini.Base.Dicts.{in_texts, lookup, values}
use elp_gemini.Criteria.{done, Document, CriteriaStatus, is_active, AliasMapEntry, AliasMap}
use elp_gemini.Criteria.Table.Groups.{UniqueIds, UniqueStable}
use elp_gemini.Criteria.Table.View.{Shown, view}
use elp_gemini.Criteria.Table.Owned.{is_owned}
use elp_gemini.Criteria.Clean.{
  criteria_documents, stable_ids_by_document, normalize_entry, is_legacy_surrogate_stable_id,
  same_entries, new_entry,
}
use elp_gemini.Criteria.Clean.Laws.{clean-lookup, target_entry, entry_or}
use elp_gemini.Criteria.Reconcile.{
  Cloud, Local, store_map, sync, concluded, migrated, reconcile, is_current, fetched_for_guard,
  or_fetch, fetched_map, old_doc_name, synced_state,
}
use elp_gemini.Criteria.Reconcile.Rebuild.{shown_entry, rebuild-done}
use elp_gemini.Criteria.Reconcile.Laws.{remote_view, reconcile-Synced}

-- After a run that ends well the table is the remote store as the run read it: under each stable id
-- the alias, the status and the time of activation that the cleaned alias map has for a criteria
-- document, nothing under any other stable id, and no stable id twice.
pub reconcile-view :
    (cloud : Cloud) (swallow_errors : Bool) (before : Local)
    → UniqueIds before.criteria
    → (reconcile cloud swallow_errors before).1.is_ok ≡ true
    → (all_docs : List Document) × (fetched : Option (Text × AliasMap)) × (cloud.listing
        ≡ done all_docs)
      × (or_fetch cloud.fetch (fetched_for_guard cloud before.app_state) ≡ done fetched)
      × ((k : Text)
          → view (reconcile cloud swallow_errors before).0.criteria k
            ≡ remote_view cloud (criteria_documents all_docs) fetched k)
      × UniqueStable (reconcile cloud swallow_errors before).0.criteria
reconcile-view cloud swallow_errors before u h =
    let s = reconcile-Synced cloud swallow_errors before u h in
    (s.all_docs, s.fetched, s.listed, s.found, s.is_remote, s.single)

no_active_surrogate :
    (cloud : Cloud) (docs : List Document) (fetched : Option (Text × AliasMap)) (k : Text)
    (s : Shown)
    → is_legacy_surrogate_stable_id k ≡ true
    → remote_view cloud docs fetched k ≡ some s
    → is_active s.status ≡ false
unfolding remote_view target_entry normalize_entry
no_active_surrogate cloud docs fetched k s l h =
    at (in_texts k (values (stable_ids_by_document cloud.digest docs)))
      (entry_or (new_entry (cloud.entry_time k))
        (lookup k (fetched_map cloud.empty_time fetched).entries))
      h
  where
    at :
        (b : Bool) (e : AliasMapEntry)
        → (if b
            then some (
                shown_entry cloud.parse_time (
                  if is_active e.status && is_legacy_surrogate_stable_id k
                  then record e { status = CriteriaStatus.uploaded; activated_at = none }
                  else e))
            else none)
          ≡ some s
        → is_active s.status ≡ false
    at false e h = cc
    at true e h = elim (Bool-cases (is_active e.status)) [
      | inl y ↦ ground (arith, h, l, y)
      | inr n ↦ ground (arith, h, l, n)
    ]

-- After a run that ends well no criterion with a surrogate for its stable id is active.
pub reconcile-legacy_inactive :
    (cloud : Cloud) (swallow_errors : Bool) (before : Local)
    → UniqueIds before.criteria
    → (reconcile cloud swallow_errors before).1.is_ok ≡ true
    → (k : Text) (s : Shown) → is_legacy_surrogate_stable_id k ≡ true
    → view (reconcile cloud swallow_errors before).0.criteria k ≡ some s
    → is_active s.status ≡ false
reconcile-legacy_inactive cloud swallow_errors before u h k s l v =
    let r = reconcile-Synced cloud swallow_errors before u h in
    no_active_surrogate cloud (criteria_documents r.all_docs) r.fetched k s l
      (sym (r.is_remote k) ∙ v)

store_map-done :
    (cloud : Cloud) (fetched : Option (Text × AliasMap)) (cleaned : List (Text × AliasMapEntry))
    → ((m : AliasMap) (name : Option Text) → cloud.replace m name ≡ done tt)
    → (t : Text) × (store_map cloud fetched cleaned ≡ done t)
unfolding store_map
store_map-done cloud fetched cleaned h =
    elim (Bool-cases (same_entries cleaned (fetched_map cloud.empty_time fetched).entries)) [
      | inl y ↦ ((fetched_map cloud.empty_time fetched).updated_at, rw y refl)
      | inr n ↦ (
        cloud.map_time,
        rw (n, h (record { updated_at = cloud.map_time; entries = cleaned }) (old_doc_name fetched))
            refl,
      )
    ]

sync-done :
    (cloud : Cloud) (guarded : Option (Text × AliasMap)) (before : Local) (all_docs : List Document)
    (fetched : Option (Text × AliasMap))
    → cloud.listing ≡ done all_docs
    → or_fetch cloud.fetch guarded ≡ done fetched
    → ((m : AliasMap) (name : Option Text) → cloud.replace m name ≡ done tt)
    → UniqueIds before.criteria
    → all
        (is_owned (stable_ids_by_document cloud.digest (criteria_documents all_docs)))
        before.criteria
      ≡ true
    → (after : Local) × (sync cloud guarded before
        ≡ done (after, length (criteria_documents all_docs)))
unfolding sync
sync-done cloud guarded before all_docs fetched l f r u o =
    let docs = criteria_documents all_docs in
    let c =
      clean-lookup cloud.digest cloud.entry_time docs
        (fetched_map cloud.empty_time fetched).entries in
    let m = store_map-done cloud fetched c.0 r in
    let b = rebuild-done cloud docs c.0 before.criteria (λ k e. rw (c.2 k) (rw e refl)) u o in
    (
      record { criteria = b.0; app_state = set_many before.app_state (synced_state cloud m.0) },
      simp (l, f, c.1, m.1, b.1),
    )

-- A run that is not skipped ends well when the remote calls do and every row with a remote document
-- has it under that document's stable id; it counts the criteria documents.
pub reconcile-is_ok :
    (cloud : Cloud) (swallow_errors : Bool) (before : Local) (all_docs : List Document)
    (fetched : Option (Text × AliasMap))
    → is_current before.app_state (fetched_for_guard cloud before.app_state) ≡ false
    → cloud.listing ≡ done all_docs
    → or_fetch cloud.fetch (fetched_for_guard cloud before.app_state) ≡ done fetched
    → ((m : AliasMap) (name : Option Text) → cloud.replace m name ≡ done tt)
    → UniqueIds before.criteria
    → all
        (is_owned (stable_ids_by_document cloud.digest (criteria_documents all_docs)))
        before.criteria
      ≡ true
    → (reconcile cloud swallow_errors before).1 ≡ record {
      is_ok = true;
      skipped = false;
      error = none;
      row_count = length (criteria_documents all_docs);
    }
unfolding reconcile concluded migrated
reconcile-is_ok cloud swallow_errors before all_docs fetched n l f r u o =
    let d =
      sync-done cloud (fetched_for_guard cloud before.app_state) (migrated cloud before) all_docs
        fetched l f r u o in
    rw n (rw d.1 refl)
