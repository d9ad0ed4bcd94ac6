-- ===== src/Criteria/Clean.antt =====
-- The alias map as the reconciliation cleans it: app/services/criteria_reconciliation_service.py.
-- `legacy_surrogate_stable_id` hashes by SHA-1, which is a parameter `digest`.
pub mod Laws
use elp_gemini.Base.{
  Text, codes, text_eq, text_eq_iff, ℕ, zero, suc, ◌+◌, ◌-◌, ◌*◌, ◌/◌, ◌%◌, ◌≤◌, ◌<◌, min, max,
  String, ◌≡◌, refl, sym, ap, subst, ◌∙◌, ◌≢◌, ◌↔◌, ◌⊎◌, inl, inr, Bool, true, false, ◌&&◌, ◌||◌,
  not, Option, none, some, List, [], ◌∷◌, ◌++◌, map, append_assoc, append-nil, arith, ltb, leb,
  ◌==◌, if◌then◌else◌, leb→le, le→leb, ltb→lt, ==_iff, ==_refl, Bool-cases, Option-cases,
  &&-eq-true, is_some, opt_eq, some_inj, length, get_elem?, filter, any, all, find, count,
  get_last?, order_by, any-append, count-append, filter-append, any-filter, any-order_by,
  length-order_by, length-append, length-filter_le, elem, zip, length-map, List-cases, get_elem?-lt,
}
use elp_gemini.Base.Texts.{starts_with, join, truthy}
use elp_gemini.Base.Dicts.{in_texts, opt_is, lookup, has, insert, values}
use elp_gemini.Criteria.{
  missing_key, Outcome, raised, done, ◌>>=◌, Document, MetaValue, CriteriaStatus, is_active,
  AliasMapEntry,
}

abbrev pub legacy_surrogate_prefix : Text
legacy_surrogate_prefix = codes "legacy_"

-- `text[:n]`
unfoldable pub first : ℕ → Text → Text
first zero t = []
first (suc n) [] = []
first (suc n) (c ∷ t) = c ∷ first n t

-- The first 16 digits of the hash.
unfoldable pub legacy_surrogate_stable_id : (Text → Text) → Text → Text
legacy_surrogate_stable_id digest document_id =
    legacy_surrogate_prefix ++ first 16 (digest document_id)

unfoldable pub is_legacy_surrogate_stable_id : Text → Bool
is_legacy_surrogate_stable_id stable_id = starts_with stable_id legacy_surrogate_prefix

abbrev pub joined : List Text → Option Text
joined [] = none
joined (t ∷ ts) = some (join [] (t ∷ ts))

abbrev pub or_joined : Option Text → List Text → Option Text
or_joined none texts = joined texts
or_joined (some sv) texts = some sv

abbrev pub kv_value : Option MetaValue → Option Text
kv_value none = none
kv_value (some v) = or_joined v.string_value v.string_list

-- `_kv_string`
unfoldable pub kv_string : Document → Text → Option Text
kv_string doc key = kv_value (lookup key doc.custom_metadata_kv)

-- The documents of type "criteria".
unfoldable pub criteria_documents : List Document → List Document
unfolding kv_string
criteria_documents docs = filter (λ d. opt_is (kv_string d (codes "type")) (codes "criteria")) docs

abbrev pub or_surrogate : (Text → Text) → Text → Option Text → Text
or_surrogate digest document_id none = legacy_surrogate_stable_id digest document_id
or_surrogate digest document_id (some sid) =
    if truthy sid then sid else legacy_surrogate_stable_id digest document_id

-- The stable id of one document.
unfoldable pub document_stable_id : (Text → Text) → Document → Text
unfolding kv_string
document_stable_id digest d = or_surrogate digest d.document_id (kv_string d (codes "stable_id"))

-- `stable_ids_by_document`
unfoldable pub add_stable_ids :
    (Text → Text) → List (Text × Text) → List Document → List (Text × Text)
add_stable_ids digest sids [] = sids
add_stable_ids digest sids (d ∷ ds) =
    add_stable_ids digest (insert d.document_id (document_stable_id digest d) sids) ds

unfoldable pub stable_ids_by_document : (Text → Text) → List Document → List (Text × Text)
unfolding add_stable_ids
stable_ids_by_document digest docs = add_stable_ids digest [] docs

-- `_normalize_active_entries`
unfoldable pub normalize_entry : Text → AliasMapEntry → AliasMapEntry
normalize_entry sid entry =
    if is_active entry.status && is_legacy_surrogate_stable_id sid
    then record entry { status = CriteriaStatus.uploaded; activated_at = none }
    else entry

unfoldable pub normalize_active_entries : List (Text × AliasMapEntry) → List (Text × AliasMapEntry)
unfolding normalize_entry
normalize_active_entries [] = []
normalize_active_entries (e ∷ entries) =
    (e.0, normalize_entry e.0 e.1) ∷ normalize_active_entries entries

-- The entry of a document that the map does not have, active from the time of its addition.
abbrev pub new_entry : Text → AliasMapEntry
new_entry now_iso = record {
  alias = none;
  status = CriteriaStatus.active;
  activated_at = some now_iso;
}

-- `m[k]`
abbrev pub at_key {ℓ} : {V : Type ℓ} → Option V → Outcome V
at_key none = raised missing_key
at_key (some v) = done v

abbrev pub with_entry :
    (Text → Text) → List (Text × AliasMapEntry) → Text → List (Text × AliasMapEntry)
with_entry now entries sid =
    if has sid entries then entries else entries ++ (sid, new_entry (now sid)) ∷ []

-- Step 4b: `now` gives the time at which the entry of a stable id is made.
unfoldable pub add_missing :
    (Text → Text)
    → List (Text × Text)
    → List (Text × AliasMapEntry)
    → List Document
    → Outcome (List (Text × AliasMapEntry))
add_missing now sids entries [] = done entries
add_missing now sids entries (d ∷ ds) = at_key (lookup d.document_id sids) >>= λ sid.
    add_missing now sids (with_entry now entries sid) ds

-- Steps 4a and 4b and the demotion of surrogates.
unfoldable pub clean :
    (Text → Text)
    → List (Text × Text)
    → List Document
    → List (Text × AliasMapEntry)
    → Outcome (List (Text × AliasMapEntry))
unfolding add_missing normalize_active_entries
clean now sids docs entries =
    add_missing now sids (filter (λ e. in_texts e.0 (values sids)) entries) docs >>= λ all_entries.
    done (normalize_active_entries all_entries)

abbrev pub opt_text_eq : Option Text → Option Text → Bool
opt_text_eq none none = true
opt_text_eq none (some b) = false
opt_text_eq (some a) none = false
opt_text_eq (some a) (some b) = text_eq a b

abbrev pub status_eq : CriteriaStatus → CriteriaStatus → Bool
status_eq CriteriaStatus.active CriteriaStatus.active = true
status_eq CriteriaStatus.uploaded CriteriaStatus.uploaded = true
status_eq CriteriaStatus.archived CriteriaStatus.archived = true
status_eq a b = false

abbrev pub entry_is : Option AliasMapEntry → AliasMapEntry → Bool
entry_is none b = false
entry_is (some a) b =
    opt_text_eq a.alias b.alias
    && status_eq a.status b.status
    && opt_text_eq a.activated_at b.activated_at

-- `cleaned == entries`, of two dicts.
unfoldable pub same_entries : List (Text × AliasMapEntry) → List (Text × AliasMapEntry) → Bool
same_entries xs ys = length xs == length ys && all (λ e. entry_is (lookup e.0 ys) e.1) xs
