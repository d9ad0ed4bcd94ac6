-- ===== src/Criteria/Reconcile.antt =====
-- `CriteriaReconciliationService.reconcile` of app/services/criteria_reconciliation_service.py, with
-- app/services/criteria_legacy_migration.py. What the remote store answers, the clock, the hash and
-- the decoding of titles are parameters. The database session has no transaction open at the call,
-- so each block commits or rolls back as a whole, and the locks let one reconciliation run at a time.
pub mod Rebuild
pub mod Laws
pub mod Outcomes
pub mod Failures
use elp_gemini.Base.{
  Text, codes, text_eq, text_eq_iff, ℕ, zero, suc, ◌+◌, ◌-◌, ◌*◌, ◌/◌, ◌%◌, ◌≤◌, ◌<◌, min, max,
  String, ◌≡◌, refl, sym, ap, subst, ◌∙◌, ◌≢◌, ◌↔◌, ◌⊎◌, inl, inr, Bool, true, false, ◌&&◌, ◌||◌,
  not, Option, none, some, List, [], ◌∷◌, ◌++◌, map, append_assoc, append-nil, arith, ltb, leb,
  ◌==◌, if◌then◌else◌, leb→le, le→leb, ltb→lt, ==_iff, ==_refl, Bool-cases, Option-cases,
  &&-eq-true, is_some, opt_eq, some_inj, length, get_elem?, filter, any, all, find, count,
  get_last?, order_by, any-append, count-append, filter-append, any-filter, any-order_by,
  length-order_by, length-append, length-filter_le, elem, zip, length-map, List-cases, get_elem?-lt,
}
use elp_gemini.Base.Texts.{truthy}
use elp_gemini.Base.Dicts.{in_texts, opt_is, lookup, has, insert, values}
use elp_gemini.AppState.{Rows, get, set, set_many}
use elp_gemini.Criteria.{
  missing_key, Fault, Outcome, raised, done, ◌>>=◌, Document, CriteriaStatus, is_active,
  AliasMapEntry, AliasMap, empty_alias_map, Criteria,
}
use elp_gemini.Criteria.Clean.{
  kv_string, criteria_documents, stable_ids_by_document, at_key, clean, same_entries,
}
use elp_gemini.Criteria.Table.Sync.{CloudRow, upsert_from_cloud, delete_by_stable_ids_except}

-- What the tables hold.
pub record Local : Type 0 where
  pub criteria : List Criteria
  pub app_state : Rows

-- What one run meets outside.
pub record Cloud : Type 0 where
  pub current_hash : Text
  pub guard_fetch : Outcome (Option (Text × AliasMap))
  pub store_names : Outcome (List Text)
  pub delete_store : Outcome (Unit {0})
  pub listing : Outcome (List Document)
  pub fetch : Outcome (Option (Text × AliasMap))
  pub replace : AliasMap → Option Text → Outcome (Unit {0})
  pub digest : Text → Text
  pub decode_title : Text → Option Text
  pub parse_time : Text → Option ℕ
  pub now : ℕ
  pub entry_time : Text → Text
  pub empty_time : Text
  pub map_time : Text
  pub sync_time : Text
  pub message : Fault → Text

pub record ReconcileResult : Type 0 where
  pub is_ok : Bool
  pub skipped : Bool
  pub error : Option Text
  pub row_count : ℕ

abbrev pub key_api_key_hash : Text
key_api_key_hash = codes "criteria_api_key_hash"

abbrev pub key_last_synced_at : Text
key_last_synced_at = codes "criteria_last_synced_at"

abbrev pub key_sync_state : Text
key_sync_state = codes "criteria_sync_state"

abbrev pub key_sync_error : Text
key_sync_error = codes "criteria_sync_error"

abbrev pub key_last_alias_map_updated_at : Text
key_last_alias_map_updated_at = codes "criteria_last_alias_map_updated_at"

abbrev pub migration_marker_key : Text
migration_marker_key = codes "criteria_migration_v2_done"

abbrev pub legacy_metadata_store_name : Text
legacy_metadata_store_name = codes "rubric-metadata-store"

-- `migrate_from_legacy_manifest`; what it raises is logged and dropped by the caller.
unfoldable pub migrate_from_legacy_manifest : Cloud → Rows → Outcome Rows
migrate_from_legacy_manifest cloud rows =
    if opt_is (get rows migration_marker_key) (codes "true")
    then done rows
    else cloud.store_names >>= λ names.
        (if in_texts legacy_metadata_store_name names then cloud.delete_store else done tt)
        >>= λ deleted. done (set rows migration_marker_key (some (codes "true")))

abbrev pub or_before {ℓ} : {A : Type ℓ} → A → Outcome A → A
or_before before (raised e) = before
or_before before (done a) = a

-- The map that the guard fetched, where it ran and did not raise.
unfoldable pub fetched_for_guard : Cloud → Rows → Option (Text × AliasMap)
fetched_for_guard cloud rows =
    if opt_is (get rows key_api_key_hash) cloud.current_hash
      && opt_is (get rows key_sync_state) (codes "ok")
      && opt_is (get rows migration_marker_key) (codes "true")
      && is_some (get rows key_last_alias_map_updated_at)
    then or_before none cloud.guard_fetch
    else none

abbrev pub is_current : Rows → Option (Text × AliasMap) → Bool
is_current rows none = false
is_current rows (some (name, m)) = opt_is (get rows key_last_alias_map_updated_at) m.updated_at

abbrev pub or_fetch :
    Outcome (Option (Text × AliasMap))
    → Option (Text × AliasMap)
    → Outcome (Option (Text × AliasMap))
or_fetch fetch none = fetch
or_fetch fetch (some found) = done (some found)

abbrev pub old_doc_name : Option (Text × AliasMap) → Option Text
old_doc_name none = none
old_doc_name (some (name, m)) = some name

abbrev pub fetched_map : Text → Option (Text × AliasMap) → AliasMap
fetched_map now none = empty_alias_map now
fetched_map now (some (name, m)) = m

abbrev pub or_text : Option Text → Text → Text
or_text none other = other
or_text (some t) other = if truthy t then t else other

abbrev pub decoded : Option Text → Text → Text
decoded none fallback = fallback
decoded (some title) fallback = title

-- The title of a document, by its metadata.
abbrev pub title_of : (Text → Option Text) → Option Text → Text → Text
title_of decode none fallback = fallback
title_of decode (some title_b64) fallback =
    if truthy title_b64 then decoded (decode title_b64) fallback else fallback

-- The arguments of the upsert of one document.
unfoldable pub cloud_item :
    Cloud → List (Text × Text) → List (Text × AliasMapEntry) → Document → Outcome CloudRow
unfolding kv_string
cloud_item cloud sids cleaned d = at_key (lookup d.document_id sids) >>= λ sid.
    at_key (lookup sid cleaned) >>= λ entry. done (record {
      stable_id = sid;
      document_id = d.document_id;
      title =
          title_of cloud.decode_title (kv_string d (codes "original_title_b64"))
            (or_text d.display_name sid);
      display_alias = entry.alias;
      status = entry.status;
      created_at = kv_string d (codes "created_at");
      activated_at = entry.activated_at;
    })

-- The loop over the documents.
unfoldable pub upsert_all :
    Cloud
    → List (Text × Text)
    → List (Text × AliasMapEntry)
    → List Criteria
    → List Document
    → Outcome (List Criteria)
unfolding cloud_item
upsert_all cloud sids cleaned rows [] = done rows
upsert_all cloud sids cleaned rows (d ∷ ds) = cloud_item cloud sids cleaned d >>= λ item.
    upsert_from_cloud cloud.parse_time cloud.now rows item >>= λ rows'.
    upsert_all cloud sids cleaned rows' ds

-- The rebuild of the table.
unfoldable pub rebuild :
    Cloud
    → List (Text × Text)
    → List (Text × AliasMapEntry)
    → List Criteria
    → List Document
    → Outcome (List Criteria)
unfolding upsert_all
rebuild cloud sids cleaned rows docs =
    upsert_all cloud sids cleaned (delete_by_stable_ids_except (values sids) rows).0 docs

-- The upload of the alias map if it has changed, with the time of the map that then holds.
unfoldable pub store_map :
    Cloud → Option (Text × AliasMap) → List (Text × AliasMapEntry) → Outcome Text
store_map cloud fetched cleaned =
    if same_entries cleaned (fetched_map cloud.empty_time fetched).entries
    then done (fetched_map cloud.empty_time fetched).updated_at
    else cloud.replace (record { updated_at = cloud.map_time; entries = cleaned })
        (old_doc_name fetched)
      >>= λ uploaded. done cloud.map_time

abbrev pub synced_state : Cloud → Text → List (Text × Option Text)
synced_state cloud updated_at =
    (key_api_key_hash, some cloud.current_hash)
    ∷ (key_last_synced_at, some cloud.sync_time)
    ∷ (key_sync_state, some (codes "ok"))
    ∷ (key_sync_error, none)
    ∷ (key_last_alias_map_updated_at, some updated_at)
    ∷ []

-- What is done inside `try`, after the migration.
unfoldable pub sync : Cloud → Option (Text × AliasMap) → Local → Outcome (Local × ℕ)
unfolding criteria_documents clean store_map rebuild
sync cloud guarded local = cloud.listing >>= λ all_docs.
    let docs = criteria_documents all_docs in
    let sids = stable_ids_by_document cloud.digest docs in
    or_fetch cloud.fetch guarded >>= λ fetched.
    clean cloud.entry_time sids docs (fetched_map cloud.empty_time fetched).entries >>= λ cleaned.
    store_map cloud fetched cleaned >>= λ updated_at.
    rebuild cloud sids cleaned local.criteria docs >>= λ rows. done (
      record {
        criteria = rows;
        app_state = set_many local.app_state (synced_state cloud updated_at);
      },
      length docs,
    )

abbrev pub failed_state : Cloud → Bool → Fault → List (Text × Option Text)
failed_state cloud key_changed e =
    (key_sync_state, some (if key_changed then codes "error" else codes "needs_resync"))
    ∷ (key_sync_error, some (cloud.message e))
    ∷ []

-- The end of the call: the rebuilt tables, or the handler of the exception.
unfoldable pub concluded :
    Cloud → Bool → Bool → Local → Outcome (Local × ℕ) → Local × ReconcileResult
concluded cloud swallow_errors key_changed local (done (synced, n)) =
    (synced, record { is_ok = true; skipped = false; error = none; row_count = n })
concluded cloud swallow_errors key_changed local (raised e) = (
  if swallow_errors && not key_changed
      then local
      else record local { app_state = set_many local.app_state (failed_state cloud key_changed e) },
  record { is_ok = false; skipped = false; error = some (cloud.message e); row_count = 0 },
)

unfoldable pub migrated : Cloud → Local → Local
unfolding migrate_from_legacy_manifest
migrated cloud local = record local {
  app_state = or_before local.app_state (migrate_from_legacy_manifest cloud local.app_state);
}

unfoldable pub reconcile : Cloud → Bool → Local → Local × ReconcileResult
unfolding fetched_for_guard concluded sync migrated
reconcile cloud swallow_errors local =
    let guarded = fetched_for_guard cloud local.app_state in
    let key_changed = not (opt_is (get local.app_state key_api_key_hash) cloud.current_hash) in
    if is_current local.app_state guarded
    then (local, record { is_ok = false; skipped = true; error = none; row_count = 0 })
    else concluded cloud swallow_errors key_changed (migrated cloud local)
        (sync cloud guarded (migrated cloud local))
