-- ===== src/Criteria/Table/Upsert.antt =====
-- What `upsert_from_cloud` does to the table.
use elp_gemini.Base.{
  Text, text_eq, text_eq_iff, ℕ, ◌≤◌, ◌≡◌, refl, sym, ap, ◌∙◌, inl, inr, Bool, true, false, ◌&&◌,
  not, Option, none, some, List, [], ◌∷◌, ◌++◌, arith, ◌==◌, if◌then◌else◌, ==_refl, Bool-cases,
  filter, any, find, count, count-append, any-filter,
}
use mathlib.Core.Option
use elp_gemini.Criteria.{Outcome, raised, done, Criteria}
use elp_gemini.Criteria.Table.{has_stable, next_id, add_row, update_row, get_criteria_by_stable_id}
use elp_gemini.Criteria.Table.Groups.{UniqueIds, UniqueStable, same_row, any-none}
use elp_gemini.Criteria.Table.Sync.{CloudRow, cloud_row, overwrite, upsert_found, upsert_from_cloud}
use elp_gemini.Criteria.Table.View.{
  shown, shown_item, view, found_one, found_none, filter-find, find-update_self, find-update_other,
  count-update, ids-update,
}

done_inj {ℓ} : {A : Type ℓ} {a b : A} → done a ≡ done b → a ≡ b
done_inj h = cc

find-snoc_new :
    (p : Criteria → Bool) (r : Criteria) (rows : List Criteria)
    → filter p rows ≡ []
    → p r ≡ true
    → find p (rows ++ r ∷ []) ≡ some r
find-snoc_new p r [] h y = rw y refl
find-snoc_new p r (x ∷ xs) h y = ground (arith, find-snoc_new p r xs)

find-snoc_other :
    (p : Criteria → Bool) (r : Criteria) (rows : List Criteria)
    → p r ≡ false
    → find p (rows ++ r ∷ []) ≡ find p rows
find-snoc_other p r [] n = rw n refl
find-snoc_other p r (x ∷ xs) n = ground (arith, find-snoc_other p r xs)

count-filter_none :
    (p : Criteria → Bool) (rows : List Criteria) → filter p rows ≡ [] → count p rows ≡ 0
count-filter_none p [] h = refl
count-filter_none p (x ∷ xs) h = ground (arith, count-filter_none p xs)

next_id-new : (j : ℕ) (rows : List Criteria) → next_id rows ≤ j → count (λ r. r.id == j) rows ≡ 0
unfolding next_id
next_id-new j [] h = refl
next_id-new j (r ∷ rs) h = ground (arith, next_id-new j rs)

-- The row that a lookup finds is the only one with its id.
pub only_row :
    (s : Text) (c : Criteria) (rows : List Criteria)
    → UniqueIds rows
    → filter (has_stable s) rows ≡ c ∷ []
    → any (λ r. not (has_stable s r) && r.id == c.id) rows ≡ false
only_row s c rows u h = elim (Bool-cases (any (λ r. not (has_stable s r) && r.id == c.id) rows)) [
  | inr n ↦ n
  | inl y ↦
      y
      ∙ sym (same_row (has_stable s) (λ r. not (has_stable s r)) c.id rows (u c.id) here y)
      ∙ any-none _ rows (λ r. ground arith)
]
  where
    here : any (λ r. has_stable s r && r.id == c.id) rows ≡ true
    here =
        sym (any-filter (λ r. r.id == c.id) (has_stable s) rows)
        ∙ ap (any (λ r. r.id == c.id)) h
        ∙ ground (arith, ==_refl c.id)

module _ (parse : Text → Option ℕ) (now : ℕ) (rows : List Criteria) (item : CloudRow) where
  added : Criteria
  added = record (cloud_row parse now item) { id = next_id rows }

  add-eq :
      (rows' : List Criteria)
      → add_row rows (cloud_row parse now item) ≡ done rows'
      → rows' ≡ rows ++ added ∷ []
  unfolding add_row added
  add-eq rows' h = ground arith

  update-eq :
      (c : Criteria) (rows' : List Criteria)
      → upsert_found parse now rows item (done (some c)) ≡ done rows'
      → rows' ≡ update_row c.id (overwrite parse item) rows
  unfolding upsert_found
  update-eq c rows' h = ground arith

  view_at :
      (o : Outcome (Option Criteria))
      → get_criteria_by_stable_id rows item.stable_id ≡ o
      → UniqueIds rows
      → (rows' : List Criteria) → upsert_found parse now rows item o ≡ done rows'
      → (k : Text)
      → view rows' k
        ≡ (if text_eq item.stable_id k then some (shown_item parse item) else view rows k)
  unfolding view upsert_found added cloud_row overwrite
  view_at (raised e) f u rows' h k = cc
  view_at (done none) f u rows' h k =
      rw (add-eq rows' h) (elim (Bool-cases (text_eq item.stable_id k)) [
        | inl y ↦ rw y (
            ap (Option.map shown) (
              find-snoc_new (has_stable k) added rows
                (ap (λ j. filter (has_stable j) rows) (sym ((text_eq_iff item.stable_id k).0 y))
                  ∙ found_none item.stable_id rows f)
                (added_is k y)))
        | inr n ↦
            rw n (ap (Option.map shown) (find-snoc_other (has_stable k) added rows (added_not k n)))
      ])
    where
      added_is : (k : Text) → text_eq item.stable_id k ≡ true → has_stable k added ≡ true
      added_is k y = y

      added_not : (k : Text) → text_eq item.stable_id k ≡ false → has_stable k added ≡ false
      added_not k n = n
  view_at (done (some c)) f u rows' h k =
      rw (update-eq c rows' h) (elim (Bool-cases (text_eq item.stable_id k)) [
        | inl y ↦ rw y (
            ap (Option.map shown) (
              find-update_self parse item k c rows (
                ap (λ j. find (has_stable j) rows) (sym ((text_eq_iff item.stable_id k).0 y))
                ∙ (filter-find (has_stable item.stable_id) c rows []
                    (found_one item.stable_id c rows f)).0)))
        | inr n ↦ rw n (
            ap (Option.map shown) (
              find-update_other parse item c.id item.stable_id k rows
                (only_row item.stable_id c rows u (found_one item.stable_id c rows f)) n))
      ])

  found-UniqueIds :
      (o : Outcome (Option Criteria))
      → UniqueIds rows
      → (rows' : List Criteria) → upsert_found parse now rows item o ≡ done rows'
      → UniqueIds rows'
  unfolding upsert_found added cloud_row
  found-UniqueIds (raised e) u rows' h i = cc
  found-UniqueIds (done none) u rows' h i =
      rw (add-eq rows' h)
        (ground (arith, count-append (λ r. r.id == i) rows (added ∷ []), u i, next_id-new i rows))
  found-UniqueIds (done (some c)) u rows' h i =
      rw (update-eq c rows' h) (omega (arith, ids-update parse item c.id i rows, u i))

  found-UniqueStable :
      (o : Outcome (Option Criteria))
      → get_criteria_by_stable_id rows item.stable_id ≡ o
      → UniqueStable rows
      → (rows' : List Criteria) → upsert_found parse now rows item o ≡ done rows'
      → UniqueStable rows'
  unfolding upsert_found added cloud_row
  found-UniqueStable (raised e) f u rows' h k = cc
  found-UniqueStable (done none) f u rows' h k =
      rw (add-eq rows' h) (elim (Bool-cases (text_eq item.stable_id k)) [
        | inl y ↦ ground (
          arith,
          count-append (has_stable k) rows (added ∷ []),
          y,
          count-filter_none (has_stable k) rows (
              ap (λ j. filter (has_stable j) rows) (sym ((text_eq_iff item.stable_id k).0 y))
              ∙ found_none item.stable_id rows f),
        )
        | inr n ↦ ground (arith, count-append (has_stable k) rows (added ∷ []), n, u k)
      ])
  found-UniqueStable (done (some c)) f u rows' h k =
      rw (update-eq c rows' h) (omega (arith, count-update parse item c.id k rows, u k))

module _ (parse : Text → Option ℕ) (now : ℕ) (rows rows' : List Criteria) (item : CloudRow)
    (h : upsert_from_cloud parse now rows item ≡ done rows') where
  -- An upsert changes the entry of its own stable id and no other.
  pub upsert_from_cloud-view :
      UniqueIds rows
      → (k : Text)
      → view rows' k
        ≡ (if text_eq item.stable_id k then some (shown_item parse item) else view rows k)
  unfolding upsert_from_cloud
  upsert_from_cloud-view u k =
      view_at parse now rows item (get_criteria_by_stable_id rows item.stable_id) refl u rows' h k

  pub upsert_from_cloud-UniqueIds : UniqueIds rows → UniqueIds rows'
  unfolding upsert_from_cloud
  upsert_from_cloud-UniqueIds u =
      found-UniqueIds parse now rows item (get_criteria_by_stable_id rows item.stable_id) u rows' h

  pub upsert_from_cloud-UniqueStable : UniqueStable rows → UniqueStable rows'
  unfolding upsert_from_cloud
  upsert_from_cloud-UniqueStable u =
      found-UniqueStable parse now rows item (get_criteria_by_stable_id rows item.stable_id) refl u
        rows' h
