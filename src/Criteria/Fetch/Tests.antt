-- ===== src/Criteria/Fetch/Tests.antt =====
-- The alias map's documents at concrete answers of the remote store.
use elp_gemini.Base.{
  codes, ℕ, ◌≤◌, String, ◌≡◌, refl, ◌⊎◌, Bool, true, false, some, List, [], ◌∷◌, arith, leb,
}
use elp_gemini.Base.Dicts.{in_texts}
use elp_gemini.Criteria.{remote, done, AliasMap}
use elp_gemini.Criteria.Fetch.{ParsedDoc, AliasDoc, Fetched, fetch}
use elp_gemini.Criteria.Fetch.Newest.{fetch-newest, Among, NoneNewer}
use elp_gemini.Criteria.Fetch.Upload.{
  Store, replace, replace-deleted, wait_done, wait_done_total, Reported,
}

abbrev stored_map : String → AliasMap
stored_map t = record { updated_at = codes t; entries = [] }

abbrev listing : List AliasDoc
listing =
    AliasDoc.readable (record { name = codes "a"; alias_map = stored_map "3"; updated_at = 3 })
    ∷ AliasDoc.unreadable (record { name = codes "b"; error = codes "bad"; updated_at = some 4 })
    ∷ AliasDoc.readable (record { name = codes "c"; alias_map = stored_map "5"; updated_at = 5 })
    ∷ []

abbrev taken_map : Fetched
taken_map = record {
  found = some (codes "c", stored_map "5");
  cleanup_names = codes "a" ∷ codes "b" ∷ [];
}

fetch-newest_example :
    (newest : ParsedDoc) × Among newest listing
    × (newest.name ≡ codes "c")
    × (newest.alias_map ≡ stored_map "5")
    × NoneNewer newest.updated_at listing
    × (in_texts (codes "c") taken_map.cleanup_names ≡ false)
unfolding fetch
fetch-newest_example =
    fetch-newest listing taken_map (codes "c") (stored_map "5") (omega arith) refl refl

-- An upload that is done at the second poll.
abbrev store : Store
store = record {
  lookup_store = done true;
  upload = done false;
  poll = λ t. done (leb 4 t);
  new_doc_name = codes "new";
  delete = λ name. done tt;
  no_store = remote [];
  timeout = remote [];
}

replace-deleted_example :
    (store.upload ≡ done true) ⊎ ((t : ℕ) × (t ≤ 61) × (store.poll t ≡ done true))
unfolding replace
replace-deleted_example = replace-deleted store (some (codes "old")) (omega arith)

wait_done_total_example :
    (b : Bool) × (wait_done 31 store.poll 0 false ≡ some b) × Reported store.poll false b
wait_done_total_example = wait_done_total 30 0 store.poll false (omega arith)
