-- ===== src/Criteria/Tests.antt =====
-- The criteria at concrete tables and remote stores.
use elp_gemini.Base.{
  Text, codes, ℕ, String, ◌≡◌, refl, ap, true, false, Option, none, some, List, [], ◌∷◌, arith,
  count,
}
use elp_gemini.AppState.{get, set, set_many}
use elp_gemini.Base.Dicts.{lookup, values}
use elp_gemini.Criteria.{
  raised, done, remote, Document, MetaValue, CriteriaStatus, is_active, AliasMap, Criteria,
}
use elp_gemini.Criteria.Table.{has_stable}
use elp_gemini.Criteria.Table.Sync.{delete_by_stable_ids_except}
use elp_gemini.Criteria.Table.Groups.{UniqueIds, UniqueStable}
use elp_gemini.Criteria.Table.Keep.{count-delete_by_stable_ids_except}
use elp_gemini.Criteria.Table.View.{view}
use elp_gemini.Criteria.Clean.{criteria_documents, is_legacy_surrogate_stable_id}
use elp_gemini.Criteria.Reconcile.{
  Cloud, Local, reconcile, or_fetch, fetched_for_guard, key_last_alias_map_updated_at,
  migration_marker_key,
}
use elp_gemini.AppState.{update_value}
use elp_gemini.Base.Dicts.{insert, has}
use elp_gemini.Criteria.Clean.{
  stable_ids_by_document, same_entries, document_stable_id, legacy_surrogate_stable_id, first,
  add_missing, add_stable_ids, clean, kv_string, normalize_active_entries, normalize_entry,
}
use elp_gemini.Criteria.Table.{taken_by_other, update_row, add_row, document_taken, next_id}
use elp_gemini.Criteria.Table.Sync.{
  upsert_from_cloud, min_id, overwrite, cloud_row, delete_others, in_survivors, upsert_found,
}
use elp_gemini.Criteria.Reconcile.{
  cloud_item, concluded, migrate_from_legacy_manifest, migrated, rebuild, store_map, sync,
  upsert_all,
}
use elp_gemini.Criteria.Reconcile.Laws.{remote_view}
use elp_gemini.Criteria.Reconcile.Outcomes.{
  reconcile-view, reconcile-is_ok, reconcile-legacy_inactive,
}
use elp_gemini.Criteria.Freshness.{runs, runs-Spaced, Spaced}
use elp_gemini.Criteria.Codec.{
  decode-encode, decode_alias_map_payload, encode_alias_map_payload, AllShort, chunk_size,
}
use elp_gemini.Criteria.Reconcile.Failures.{reconcile_failed, Untouched}

abbrev row : ℕ → String → Criteria
row i sid = record {
  id = i;
  title = codes "t";
  document_id = none;
  file_size = 7;
  file_path = codes "p";
  status = CriteriaStatus.uploaded;
  uploaded_by = codes "admin";
  activated_at = none;
  created_at = 1;
  synced_at = none;
  display_alias = none;
  stable_id = some (codes sid);
}

-- Two rows of one stable id and one of another.
abbrev table : List Criteria
table = row 1 "A" ∷ row 2 "A" ∷ row 3 "B" ∷ []

table-UniqueIds : UniqueIds table
table-UniqueIds i = ground arith

count-delete_by_stable_ids_except_example :
    count (has_stable (codes "A")) (delete_by_stable_ids_except (codes "A" ∷ []) table).0 ≡ 1
count-delete_by_stable_ids_except_example =
    count-delete_by_stable_ids_except (codes "A" ∷ []) table table-UniqueIds (codes "A")

abbrev meta : String → MetaValue
meta t = record { string_value = some (codes t); string_list = [] }

-- One document with a stable id and one without.
abbrev documents : List Document
documents =
    record {
      document_id = codes "d1";
      display_name = some (codes "one");
      custom_metadata_kv = (codes "type", meta "criteria") ∷ (codes "stable_id", meta "A") ∷ [];
    }
    ∷ record {
      document_id = codes "d2";
      display_name = none;
      custom_metadata_kv = (codes "type", meta "criteria") ∷ [];
    }
    ∷ []

abbrev alias_map : AliasMap
alias_map = record { updated_at = codes "u"; entries = [] }

abbrev cloud : Cloud
cloud = record {
  current_hash = codes "h";
  guard_fetch = done (some (codes "m", alias_map));
  store_names = done [];
  delete_store = done tt;
  listing = done documents;
  fetch = done (some (codes "m", alias_map));
  replace = λ m name. done tt;
  digest = λ t. t;
  decode_title = λ t. some t;
  parse_time = λ t. some 5;
  now = 9;
  entry_time = λ t. codes "e";
  empty_time = codes "z";
  map_time = codes "n";
  sync_time = codes "s";
  message = λ e. codes "failed";
}

abbrev local : Local
local = record { criteria = table; app_state = [] }

abbrev offline : Cloud
offline = record cloud { listing = raised (remote (codes "down")) }

local-is_ok : (reconcile cloud true local).1.is_ok ≡ true
unfolding fetched_for_guard get criteria_documents lookup
local-is_ok =
    ap (λ r. r.is_ok)
      (reconcile-is_ok cloud true local documents (some (codes "m", alias_map)) refl refl refl
        (λ m name. refl) table-UniqueIds refl)

legacy_row :
    view (reconcile cloud true local).0.criteria (codes "legacy_d2")
    ≡ some (record { alias = none; status = CriteriaStatus.uploaded; activated_at = none })
unfolding reconcile get lookup stable_ids_by_document insert same_entries has document_stable_id
    legacy_surrogate_stable_id upsert_from_cloud delete_by_stable_ids_except values min_id
    taken_by_other first update_row overwrite add_row set set_many update_value add_missing
    add_stable_ids clean criteria_documents is_legacy_surrogate_stable_id kv_string
    normalize_active_entries normalize_entry cloud_item concluded fetched_for_guard
    migrate_from_legacy_manifest migrated rebuild store_map sync upsert_all cloud_row delete_others
    in_survivors upsert_found document_taken next_id view
legacy_row = refl

marked : get (reconcile cloud true local).0.app_state migration_marker_key ≡ some (codes "true")
unfolding reconcile get lookup stable_ids_by_document insert same_entries has document_stable_id
    legacy_surrogate_stable_id upsert_from_cloud delete_by_stable_ids_except values min_id
    taken_by_other first update_row overwrite add_row set set_many update_value add_missing
    add_stable_ids clean criteria_documents is_legacy_surrogate_stable_id kv_string
    normalize_active_entries normalize_entry cloud_item concluded fetched_for_guard
    migrate_from_legacy_manifest migrated rebuild store_map sync upsert_all cloud_row delete_others
    in_survivors upsert_found document_taken next_id view
marked = refl

recorded :
    get (reconcile cloud true local).0.app_state key_last_alias_map_updated_at ≡ some (codes "n")
unfolding reconcile get lookup stable_ids_by_document insert same_entries has document_stable_id
    legacy_surrogate_stable_id upsert_from_cloud delete_by_stable_ids_except values min_id
    taken_by_other first update_row overwrite add_row set set_many update_value add_missing
    add_stable_ids clean criteria_documents is_legacy_surrogate_stable_id kv_string
    normalize_active_entries normalize_entry cloud_item concluded fetched_for_guard
    migrate_from_legacy_manifest migrated rebuild store_map sync upsert_all cloud_row delete_others
    in_survivors upsert_found document_taken next_id view
recorded = refl

reconcile-view_example :
    (all_docs : List Document) × (fetched : Option (Text × AliasMap)) × (cloud.listing
      ≡ done all_docs)
    × (or_fetch cloud.fetch (fetched_for_guard cloud local.app_state) ≡ done fetched)
    × ((k : Text)
        → view (reconcile cloud true local).0.criteria k
          ≡ remote_view cloud (criteria_documents all_docs) fetched k)
    × UniqueStable (reconcile cloud true local).0.criteria
reconcile-view_example = reconcile-view cloud true local table-UniqueIds local-is_ok

reconcile-is_ok_example :
    (reconcile cloud true local).1
    ≡ record { is_ok = true; skipped = false; error = none; row_count = 2 }
unfolding fetched_for_guard get criteria_documents lookup
reconcile-is_ok_example =
    reconcile-is_ok cloud true local documents (some (codes "m", alias_map)) refl refl refl
      (λ m name. refl) table-UniqueIds refl

reconcile-legacy_inactive_example : is_active CriteriaStatus.uploaded ≡ false
unfolding is_legacy_surrogate_stable_id
reconcile-legacy_inactive_example =
    reconcile-legacy_inactive cloud true local table-UniqueIds local-is_ok (codes "legacy_d2")
      (record { alias = none; status = CriteriaStatus.uploaded; activated_at = none }) refl
      legacy_row

reconcile_failed_example :
    ((reconcile offline false local).0.criteria ≡ local.criteria)
    × ((key : Text)
        → Untouched key
        → get (reconcile offline false local).0.app_state key ≡ get local.app_state key)
unfolding reconcile get
reconcile_failed_example = reconcile_failed offline false local refl

abbrev later : Cloud
later = record offline {
  guard_fetch = done (some (codes "x", record { updated_at = codes "n"; entries = [] }));
}

runs-Spaced_example : Spaced 10 (some 3) (runs true 10 (some 3) (5 ∷ 14 ∷ 20 ∷ 30 ∷ []))
runs-Spaced_example = runs-Spaced true 10 (some 3) (5 ∷ 14 ∷ 20 ∷ 30 ∷ []) (omega arith)

decode-encode_example :
    (decode_alias_map_payload []
        (λ t. t)
        (encode_alias_map_payload (λ (t : Text). t) (codes "e30="))
      ≡ codes "e30=")
    × AllShort chunk_size (encode_alias_map_payload (λ (t : Text). t) (codes "e30="))
decode-encode_example = decode-encode [] (λ t. t) (λ t. t) (codes "e30=") refl (omega arith)
