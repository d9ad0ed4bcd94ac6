-- ===== src/Criteria/Table/Sync.antt =====
-- The operations on the table by which the remote store is copied: `insert`, `upsert_from_cloud` and
-- `delete_by_stable_ids_except` of app/repositories/criteria_repository.py.
use elp_gemini.Base.{
  Text, codes, ℕ, ◌-◌, min, Bool, false, ◌&&◌, ◌||◌, not, Option, none, some, List, [], ◌∷◌,
  if◌then◌else◌, is_some, opt_eq, length, filter,
}
use elp_gemini.Base.Texts.{truthy}
use elp_gemini.Base.Dicts.{in_texts}
use elp_gemini.Criteria.{integrity, Outcome, raised, done, CriteriaStatus, Criteria}
use elp_gemini.Criteria.Table.{
  has_stable, add_row, update_row, taken_by_other, get_criteria_by_stable_id,
}

-- What the caller gives for one document.
pub record CloudRow : Type 0 where
  pub stable_id : Text
  pub document_id : Text
  pub title : Text
  pub display_alias : Option Text
  pub status : CriteriaStatus
  pub created_at : Option Text
  pub activated_at : Option Text

-- `datetime.fromisoformat` is `parse`: it raises on some texts, which is `none`.
abbrev pub parsed : (Text → Option ℕ) → Option Text → Option ℕ
parsed parse none = none
parsed parse (some t) = if truthy t then parse t else none

abbrev pub get_or : ℕ → Option ℕ → ℕ
get_or other none = other
get_or other (some n) = n

unfoldable pub cloud_row : (Text → Option ℕ) → ℕ → CloudRow → Criteria
cloud_row parse now item = record {
  id = 0;
  title = item.title;
  document_id = some item.document_id;
  file_size = 0;
  file_path = [];
  status = item.status;
  uploaded_by = codes "cloud-sync";
  activated_at = parsed parse item.activated_at;
  created_at = get_or now (parsed parse item.created_at);
  synced_at = none;
  display_alias = item.display_alias;
  stable_id = some item.stable_id;
}

-- The columns that come from the remote store.
unfoldable pub overwrite : (Text → Option ℕ) → CloudRow → Criteria → Criteria
overwrite parse item c = record c {
  document_id = some item.document_id;
  title = item.title;
  display_alias = item.display_alias;
  status = item.status;
  created_at = get_or c.created_at (parsed parse item.created_at);
  activated_at = parsed parse item.activated_at;
}

unfoldable pub upsert_found :
    (Text → Option ℕ)
    → ℕ
    → List Criteria
    → CloudRow
    → Outcome (Option Criteria)
    → Outcome (List Criteria)
unfolding cloud_row
upsert_found parse now rows item (raised e) = raised e
upsert_found parse now rows item (done none) = add_row rows (cloud_row parse now item)
upsert_found parse now rows item (done (some c)) =
    if taken_by_other c.id item.document_id rows
    then raised integrity
    else done (update_row c.id (overwrite parse item) rows)

-- `upsert_from_cloud`
unfoldable pub upsert_from_cloud :
    (Text → Option ℕ) → ℕ → List Criteria → CloudRow → Outcome (List Criteria)
unfolding upsert_found
upsert_from_cloud parse now rows item =
    upsert_found parse now rows item (get_criteria_by_stable_id rows item.stable_id)

-- `stable_id in keep`, which is not true of NULL.
abbrev pub kept_id : List Text → Option Text → Bool
kept_id keep none = false
kept_id keep (some k) = in_texts k keep

-- `stable_id not in keep`, which is not true of NULL either.
abbrev pub unkept_id : List Text → Option Text → Bool
unkept_id keep none = false
unkept_id keep (some k) = not (in_texts k keep)

abbrev pub least : ℕ → Option ℕ → ℕ
least i none = i
least i (some j) = min i j

-- `min(id)` of the rows with a stable id.
unfoldable pub min_id : Text → List Criteria → Option ℕ
min_id k [] = none
min_id k (r ∷ rs) =
    let rest = min_id k rs in if has_stable k r then some (least r.id rest) else rest

-- The group of a row, by its stable id.
abbrev pub is_min : List Criteria → ℕ → Option Text → Bool
is_min rows i none = false
is_min rows i (some k) = opt_eq (min_id k rows) (some i)

-- `id in (select min(id) where stable_id in keep group by stable_id)`: one group for each row with
-- such a stable id.
unfoldable pub in_survivors : List Text → List Criteria → List Criteria → ℕ → Bool
in_survivors keep rows [] i = false
in_survivors keep rows (r ∷ rs) i =
    (kept_id keep r.stable_id && is_min rows i r.stable_id) || in_survivors keep rows rs i

-- What the three deletions leave, when there is something to keep.
unfoldable pub delete_others : List Text → List Criteria → List Criteria
unfolding in_survivors
delete_others keep rows =
    let named = filter (λ r. is_some r.stable_id) rows in
    let wanted = filter (λ r. not (unkept_id keep r.stable_id)) named in
    filter (λ r. not (kept_id keep r.stable_id && not (in_survivors keep wanted wanted r.id)))
      wanted

-- `delete_by_stable_ids_except`, with the number of deleted rows.
unfoldable pub delete_by_stable_ids_except : List Text → List Criteria → List Criteria × ℕ
unfolding delete_others
delete_by_stable_ids_except [] rows = ([], length rows)
delete_by_stable_ids_except (k ∷ ks) rows =
    let rest = delete_others (k ∷ ks) rows in (rest, length rows - length rest)
