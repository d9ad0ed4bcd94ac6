-- ===== src/Sim/Setup/Library.antt =====
-- The user's own personas: app/services/simulation/library.py.
pub mod Laws
use elp_gemini.Base.{
  Text, codes, text_eq, text_eq_iff, ℕ, zero, suc, ◌+◌, ◌-◌, ◌*◌, ◌/◌, ◌%◌, ◌≤◌, ◌<◌, min, max,
  String, ◌≡◌, refl, sym, ap, subst, ◌∙◌, ◌≢◌, ◌↔◌, ◌⊎◌, inl, inr, Bool, true, false, ◌&&◌, ◌||◌,
  not, Option, none, some, List, [], ◌∷◌, ◌++◌, map, append_assoc, append-nil, arith, ltb, leb,
  ◌==◌, if◌then◌else◌, leb→le, le→leb, ltb→lt, ==_iff, ==_refl, Bool-cases, Option-cases,
  &&-eq-true, is_some, opt_eq, length, get_elem?, filter, any, all, find, count, get_last?,
  order_by, any-append, count-append, filter-append, any-filter, any-order_by, length-order_by,
  length-append, length-filter_le, elem, zip, length-map, List-cases, get_elem?-lt,
}
use elp_gemini.Base.Json.{Fields}
use elp_gemini.Base.Texts.{show}
use elp_gemini.Sim.Errors.{Code, Result, ok, err}
use elp_gemini.Sim.Model.{LibraryItem}

-- `ref(item)`
unfoldable pub ref : LibraryItem → Text
ref item = codes "custom:" ++ show item.id

abbrev pub owned : ℕ → LibraryItem → Bool
owned user_id item = item.user_id == user_id

abbrev pub is_item : ℕ → ℕ → LibraryItem → Bool
is_item user_id item_id item = item.id == item_id && item.user_id == user_id

unfoldable pub next_item_id : List LibraryItem → ℕ
next_item_id [] = 1
next_item_id (item ∷ items) = max (item.id + 1) (next_item_id items)

unfoldable pub new_item : ℕ → ℕ → ℕ → Fields → Fields × Text → LibraryItem
new_item id now user_id profile adapted = record {
  id = id;
  user_id = user_id;
  raw_profile = profile;
  adapted_profile = adapted.0;
  adapted_level = adapted.1;
  created_at = now;
}

-- `create`, with the result of `adapt_many` and the rows as they are when it has come.
unfoldable pub create :
    ℕ
    → ℕ
    → Fields
    → Result (Fields × Text)
    → List LibraryItem
    → Result LibraryItem × List LibraryItem
unfolding new_item
create now user_id profile (err e) items = (err e, items)
create now user_id profile (ok adapted) items =
    let item = new_item (next_item_id items) now user_id profile adapted in
    (ok item, items ++ item ∷ [])

unfoldable pub list_items : List LibraryItem → ℕ → List LibraryItem
list_items items user_id = order_by LibraryItem.id (filter (owned user_id) items)

unfoldable pub delete : ℕ → ℕ → List LibraryItem → Result (Unit {0}) × List LibraryItem
delete user_id item_id items =
    if any (is_item user_id item_id) items
    then (ok tt, filter (λ item. not (is_item user_id item_id item)) items)
    else (err Code.library_not_found, items)

-- One more item of the list, if it is there.
unfoldable pub with_item :
    Option LibraryItem → Result (List LibraryItem) → Result (List LibraryItem)
with_item none rest = err Code.unknown_persona
with_item (some item) (err e) = err e
with_item (some item) (ok items) = ok (item ∷ items)

-- The items of the ids, in their order, each from the user's rows.
unfoldable pub snapshot_for_session : List LibraryItem → ℕ → List ℕ → Result (List LibraryItem)
unfolding with_item
snapshot_for_session items user_id [] = ok []
snapshot_for_session items user_id (i ∷ ids) =
    with_item (find (is_item user_id i) items) (snapshot_for_session items user_id ids)
