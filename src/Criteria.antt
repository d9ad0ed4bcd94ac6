-- ===== src/Criteria.antt =====
-- The evaluation criteria: app/models/criteria.py, app/schemas/alias_map.py, and the documents of the
-- remote store as app/services/criteria_vector_service.py lists them. The column updated_at, which
-- no code reads, is left out.
pub mod Table
pub mod Clean
pub mod Reconcile
pub mod Fetch
pub mod Freshness
pub mod Codec
pub mod Tests
use elp_gemini.Base.{
  Text, codes, text_eq, text_eq_iff, ℕ, zero, suc, ◌+◌, ◌-◌, ◌*◌, ◌/◌, ◌%◌, ◌≤◌, ◌<◌, min, max,
  String, ◌≡◌, refl, sym, ap, subst, ◌∙◌, ◌≢◌, ◌↔◌, ◌⊎◌, inl, inr, Bool, true, false, ◌&&◌, ◌||◌,
  not, Option, none, some, List, [], ◌∷◌, ◌++◌, map, append_assoc, append-nil, arith, ltb, leb,
  ◌==◌, if◌then◌else◌, leb→le, le→leb, ltb→lt, ==_iff, ==_refl, Bool-cases, Option-cases,
  &&-eq-true, is_some, opt_eq, some_inj, length, get_elem?, filter, any, all, find, count,
  get_last?, order_by, any-append, count-append, filter-append, any-filter, any-order_by,
  length-order_by, length-append, length-filter_le, elem, zip, length-map, List-cases, get_elem?-lt,
}

-- What a call may raise: an error of the database, a dict without the key, or what the remote store
-- raises, with its text.
pub data Fault : Type 0 where
  integrity : Fault
  multiple_rows : Fault
  missing_key : Fault
  remote : Text → Fault

pub data Outcome {ℓ} (B : Type ℓ) : Type ℓ where
  raised : Fault → Outcome B
  done : B → Outcome B

infixl 5 ◌>>=◌
abbrev pub ◌>>=◌ {κ ℓ} : {B : Type ℓ} {C : Type κ} → Outcome B → (B → Outcome C) → Outcome C
raised e >>= rest = raised e
done b >>= rest = rest b

-- `CriteriaStatus`
pub data CriteriaStatus : Type 0 where
  active : CriteriaStatus
  uploaded : CriteriaStatus
  archived : CriteriaStatus

abbrev pub is_active : CriteriaStatus → Bool
is_active CriteriaStatus.active = true
is_active CriteriaStatus.uploaded = false
is_active CriteriaStatus.archived = false

pub record Criteria : Type 0 where
  pub id : ℕ
  pub title : Text
  pub document_id : Option Text
  pub file_size : ℕ
  pub file_path : Text
  pub status : CriteriaStatus
  pub uploaded_by : Text
  pub activated_at : Option ℕ
  pub created_at : ℕ
  pub synced_at : Option ℕ
  pub display_alias : Option Text
  pub stable_id : Option Text

pub record AliasMapEntry : Type 0 where
  pub alias : Option Text
  pub status : CriteriaStatus
  pub activated_at : Option Text

-- The schema's version is the literal 1.
pub record AliasMap : Type 0 where
  pub updated_at : Text
  pub entries : List (Text × AliasMapEntry)

abbrev pub empty_alias_map : Text → AliasMap
empty_alias_map now_iso = record { updated_at = now_iso; entries = [] }

-- A value of the metadata: a text, or a list of texts.
pub record MetaValue : Type 0 where
  pub string_value : Option Text
  pub string_list : List Text

-- A document of the remote store.
pub record Document : Type 0 where
  pub document_id : Text
  pub display_name : Option Text
  pub custom_metadata_kv : List (Text × MetaValue)
