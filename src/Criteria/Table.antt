-- ===== src/Criteria/Table.antt =====
-- The table of criteria: app/repositories/criteria_repository.py. An operation returns the rows
-- behind it; the caller commits them.
pub mod Sync
pub mod Groups
pub mod Keep
pub mod View
pub mod Upsert
pub mod Owned
use elp_gemini.Base.{
  Text, codes, text_eq, text_eq_iff, ℕ, zero, suc, ◌+◌, ◌-◌, ◌*◌, ◌/◌, ◌%◌, ◌≤◌, ◌<◌, min, max,
  String, ◌≡◌, refl, sym, ap, subst, ◌∙◌, ◌≢◌, ◌↔◌, ◌⊎◌, inl, inr, Bool, true, false, ◌&&◌, ◌||◌,
  not, Option, none, some, List, [], ◌∷◌, ◌++◌, map, append_assoc, append-nil, arith, ltb, leb,
  ◌==◌, if◌then◌else◌, leb→le, le→leb, ltb→lt, ==_iff, ==_refl, Bool-cases, Option-cases,
  &&-eq-true, is_some, opt_eq, some_inj, length, get_elem?, filter, any, all, find, count,
  get_last?, order_by, any-append, count-append, filter-append, any-filter, any-order_by,
  length-order_by, length-append, length-filter_le, elem, zip, length-map, List-cases, get_elem?-lt,
}
use elp_gemini.Base.Dicts.{
  in_texts, opt_is, text_eq_refl, text_eq_sym, text_eq_trans, lookup, insert, has, values, Distinct,
  lookup-insert,
}
use elp_gemini.Criteria.{
  is_active, Fault, integrity, multiple_rows, Outcome, raised, done, CriteriaStatus, Criteria,
}

abbrev pub has_stable : Text → Criteria → Bool
has_stable k r = opt_is r.stable_id k

abbrev pub has_document : Text → Criteria → Bool
has_document d r = opt_is r.document_id d

-- The next value of the key `id`.
unfoldable pub next_id : List Criteria → ℕ
next_id [] = 1
next_id (r ∷ rs) = max (r.id + 1) (next_id rs)

-- The unique index on `document_id`, which lets any number of rows have none.
unfoldable pub document_taken : List Criteria → Option Text → Bool
document_taken rows none = false
document_taken rows (some d) = any (has_document d) rows

-- `db.add(row)` and the flush
unfoldable pub add_row : List Criteria → Criteria → Outcome (List Criteria)
unfolding next_id document_taken
add_row rows row =
    if document_taken rows row.document_id
    then raised integrity
    else done (rows ++ record row { id = next_id rows } ∷ [])

-- `save_criteria`
unfoldable pub save_criteria :
    ℕ
    → List Criteria
    → Text
    → ℕ
    → Text
    → Text
    → Option Text
    → CriteriaStatus
    → Outcome (List Criteria)
unfolding add_row
save_criteria now rows title file_size uploaded_by file_path document_id status =
    add_row rows (record {
      id = 0;
      title = title;
      document_id = document_id;
      file_size = file_size;
      file_path = file_path;
      status = status;
      uploaded_by = uploaded_by;
      activated_at = none;
      created_at = now;
      synced_at = none;
      display_alias = none;
      stable_id = none;
    })

-- `order by created_at desc`: the sort is stable in the order of the rows.
insert_newest : Criteria → List Criteria → List Criteria
insert_newest r [] = r ∷ []
insert_newest r (x ∷ xs) =
    if leb x.created_at r.created_at then r ∷ x ∷ xs else x ∷ insert_newest r xs

-- `get_all_criteria`
unfoldable pub get_all_criteria : List Criteria → List Criteria
unfolding insert_newest
get_all_criteria [] = []
get_all_criteria (r ∷ rs) = insert_newest r (get_all_criteria rs)

-- `get_active_criteria`
unfoldable pub get_active_criteria : List Criteria → List Criteria
unfolding get_all_criteria
get_active_criteria rows = get_all_criteria (filter (λ r. is_active r.status) rows)

-- `scalar_one_or_none`
abbrev pub scalar_one_or_none : List Criteria → Outcome (Option Criteria)
scalar_one_or_none [] = done none
scalar_one_or_none (r ∷ []) = done (some r)
scalar_one_or_none (r ∷ s ∷ rs) = raised multiple_rows

-- `get_criteria_by_id`, by the primary key.
abbrev pub get_criteria_by_id : List Criteria → ℕ → Option Criteria
get_criteria_by_id rows cid = find (λ r. r.id == cid) rows

abbrev pub get_criteria_by_document_id : List Criteria → Text → Outcome (Option Criteria)
get_criteria_by_document_id rows d = scalar_one_or_none (filter (has_document d) rows)

abbrev pub get_criteria_by_stable_id : List Criteria → Text → Outcome (Option Criteria)
get_criteria_by_stable_id rows k = scalar_one_or_none (filter (has_stable k) rows)

-- `delete_criteria`
unfoldable pub delete_criteria : List Criteria → ℕ → List Criteria × Bool
delete_criteria rows cid =
    (filter (λ r. not (r.id == cid)) rows, ltb 0 (count (λ r. r.id == cid) rows))

-- `delete_all_criteria` and `truncate`
abbrev pub delete_all_criteria : List Criteria → List Criteria × ℕ
delete_all_criteria rows = ([], length rows)

-- An `UPDATE ... WHERE id = cid`.
unfoldable pub update_row : ℕ → (Criteria → Criteria) → List Criteria → List Criteria
update_row cid f [] = []
update_row cid f (r ∷ rs) = (if r.id == cid then f r else r) ∷ update_row cid f rs

changed :
    List Criteria → ℕ → (Criteria → Criteria) → Option Criteria → List Criteria × Option Criteria
changed rows cid f none = (rows, none)
changed rows cid f (some c) = (update_row cid f rows, some (f c))

-- What the updates share: the row is read, changed and flushed, or `None` is returned.
unfoldable pub change : List Criteria → ℕ → (Criteria → Criteria) → List Criteria × Option Criteria
unfolding changed
change rows cid f = changed rows cid f (get_criteria_by_id rows cid)

unfoldable pub update_status : List Criteria → ℕ → CriteriaStatus → List Criteria × Option Criteria
unfolding change
update_status rows cid status = change rows cid (λ c. record c { status = status })

unfoldable pub activate_criteria : ℕ → List Criteria → ℕ → List Criteria × Option Criteria
unfolding change
activate_criteria now rows cid =
    change rows cid (λ c. record c { status = CriteriaStatus.active; activated_at = some now })

-- The time of the activation stays.
unfoldable pub deactivate_criteria : List Criteria → ℕ → List Criteria × Option Criteria
unfolding change
deactivate_criteria rows cid = change rows cid (λ c. record c { status = CriteriaStatus.uploaded })

unfoldable pub update_display_alias :
    List Criteria → ℕ → Option Text → List Criteria × Option Criteria
unfolding change
update_display_alias rows cid alias = change rows cid (λ c. record c { display_alias = alias })

-- Another row has the document.
unfoldable pub taken_by_other : ℕ → Text → List Criteria → Bool
taken_by_other cid d rows = any (λ r. not (r.id == cid) && has_document d r) rows

unfoldable pub update_document_id :
    List Criteria → ℕ → Text → Outcome (List Criteria × Option Criteria)
unfolding change taken_by_other
update_document_id rows cid d =
    if is_some (get_criteria_by_id rows cid) && taken_by_other cid d rows
    then raised integrity
    else done (change rows cid (λ c. record c { document_id = some d }))

map_row : Criteria → List Text → Option Text → List (Text × Criteria) → List (Text × Criteria)
map_row r doc_ids none rest = rest
map_row r doc_ids (some d) rest = if in_texts d doc_ids then (d, r) ∷ rest else rest

-- `get_criteria_map_by_document_ids`: the row of each listed document that has one.
unfoldable pub get_criteria_map_by_document_ids : List Criteria → List Text → List (Text × Criteria)
unfolding map_row
get_criteria_map_by_document_ids [] doc_ids = []
get_criteria_map_by_document_ids (r ∷ rs) doc_ids =
    map_row r doc_ids r.document_id (get_criteria_map_by_document_ids rs doc_ids)
