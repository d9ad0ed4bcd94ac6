-- ===== src/AppState.antt =====
-- The key-value table of the application: app/repositories/app_state_repository.py.
pub mod Laws
pub mod Tests
use elp_gemini.Base.{
  Text, codes, text_eq, text_eq_iff, ℕ, zero, suc, ◌+◌, ◌-◌, ◌*◌, ◌/◌, ◌%◌, ◌≤◌, ◌<◌, min, max,
  String, ◌≡◌, refl, sym, ap, subst, ◌∙◌, ◌≢◌, ◌↔◌, ◌⊎◌, inl, inr, Bool, true, false, ◌&&◌, ◌||◌,
  not, Option, none, some, List, [], ◌∷◌, ◌++◌, map, append_assoc, append-nil, arith, ltb, leb,
  ◌==◌, if◌then◌else◌, leb→le, le→leb, ltb→lt, ==_iff, ==_refl, Bool-cases, Option-cases,
  &&-eq-true, is_some, opt_eq, length, get_elem?, filter, any, all, find, count, get_last?,
  order_by, any-append, count-append, filter-append, any-filter, any-order_by, length-order_by,
  length-append, length-filter_le, elem, zip, length-map, List-cases, get_elem?-lt,
}

abbrev pub Rows : Type 0
Rows = List (Text × Text)

abbrev pub has_key : Text → Text × Text → Bool
has_key key row = text_eq row.0 key

unfoldable pub get : Rows → Text → Option Text
get [] key = none
get (row ∷ rows) key = if has_key key row then some row.1 else get rows key

unfoldable pub update_value : Text → Text → Rows → Rows
update_value key value [] = []
update_value key value (row ∷ rows) =
    (if has_key key row then (row.0, value) else row) ∷ update_value key value rows

-- `AppStateRepository.set`: no value deletes the row, which is the only one of its key.
unfoldable pub set : Rows → Text → Option Text → Rows
unfolding update_value
set rows key none = filter (λ row. not (has_key key row)) rows
set rows key (some value) =
    if any (has_key key) rows then update_value key value rows else rows ++ (key, value) ∷ []

unfoldable pub set_many : Rows → List (Text × Option Text) → Rows
unfolding set
set_many rows [] = rows
set_many rows (item ∷ items) = set_many (set rows item.0 item.1) items
