-- ===== src/Criteria/Table/Owned.antt =====
-- When `upsert_from_cloud` goes through: `sids` names the stable id of each remote document.
use elp_gemini.Base.{
  Text, text_eq_iff, ℕ, ◌≤◌, ◌≡◌, refl, sym, ap, ◌∙◌, inl, inr, Bool, true, false, ◌&&◌, not,
  Option, none, some, List, [], ◌∷◌, ◌++◌, arith, ◌==◌, ==_refl, Bool-cases, length, filter, any,
  all, count, any-filter,
}
use elp_gemini.Base.Dicts.{opt_is, text_eq_refl, lookup}
use elp_gemini.Criteria.{Outcome, raised, done, Criteria}
use elp_gemini.Criteria.Table.{
  has_stable, has_document, next_id, add_row, document_taken, update_row, taken_by_other,
  scalar_one_or_none, get_criteria_by_stable_id,
}
use elp_gemini.Criteria.Table.Groups.{UniqueIds, UniqueStable}
use elp_gemini.Criteria.Table.Sync.{CloudRow, cloud_row, overwrite, upsert_found, upsert_from_cloud}
use elp_gemini.Criteria.Table.Upsert.{only_row}
use elp_gemini.Criteria.Table.View.{found_one, found_none}

abbrev pub listed_as : Option Text → Option Text → Bool
listed_as none stable_id = true
listed_as (some k) stable_id = opt_is stable_id k

abbrev pub owned_document : List (Text × Text) → Option Text → Option Text → Bool
owned_document sids none stable_id = true
owned_document sids (some d) stable_id = listed_as (lookup d sids) stable_id

-- A row that has a remote document has it under the stable id that the document has.
abbrev pub is_owned : List (Text × Text) → Criteria → Bool
is_owned sids r = owned_document sids r.document_id r.stable_id

all-append {ℓ} :
    {A : Type ℓ} (p : A → Bool) (xs ys : List A)
    → all p xs ≡ true
    → all p ys ≡ true
    → all p (xs ++ ys) ≡ true
all-append p [] ys h k = k
all-append p (x ∷ xs) ys h k = ground (arith, all-append p xs ys)

any-le_all :
    (p q a : Criteria → Bool) (xs : List Criteria)
    → ((r : Criteria) → a r ≡ true → p r ≡ true → q r ≡ true)
    → all a xs ≡ true
    → any p xs ≡ true
    → any q xs ≡ true
any-le_all p q a [] h o e = e
any-le_all p q a (x ∷ xs) h o e = ground (arith, h x, any-le_all p q a xs h)

length_le_one :
    (xs : List Criteria) (k : Text)
    → count (has_stable k) xs ≤ 1
    → length (filter (has_stable k) xs) ≤ 1
length_le_one [] k h = omega arith
length_le_one (x ∷ xs) k h = ground (arith, length_le_one xs k, none_left xs)
  where
    none_left : (ys : List Criteria) → length (filter (has_stable k) ys) ≡ count (has_stable k) ys
    none_left [] = refl
    none_left (y ∷ ys) = ground (arith, none_left ys)

module _ (sids : List (Text × Text)) (item : CloudRow)
    (listed : lookup item.document_id sids ≡ some item.stable_id) where
  -- The rows with the item's document have its stable id.
  document-stable :
      (d s : Option Text)
      → owned_document sids d s ≡ true
      → opt_is d item.document_id ≡ true
      → opt_is s item.stable_id ≡ true
  document-stable none s o h = cc
  document-stable (some d) s o h =
      sym (
        ap (λ l. listed_as l s)
          (ap (λ x. lookup x sids) ((text_eq_iff d item.document_id).0 h) ∙ listed))
      ∙ o

  module _ (parse : Text → Option ℕ) (now : ℕ) (rows : List Criteria)
      (owned : all (is_owned sids) rows ≡ true) where
    stable-any :
        (p : Criteria → Bool)
        → any (λ r. p r && has_document item.document_id r) rows ≡ true
        → any p (filter (has_stable item.stable_id) rows) ≡ true
    stable-any p h =
        any-filter p (has_stable item.stable_id) rows
        ∙ any-le_all (λ r. p r && has_document item.document_id r)
            (λ r. has_stable item.stable_id r && p r) (is_owned sids) rows
            (λ r o e. ground (arith, document-stable r.document_id r.stable_id o)) owned h

    no_clash_new :
        filter (has_stable item.stable_id) rows ≡ []
        → any (has_document item.document_id) rows ≡ false
    no_clash_new f = elim (Bool-cases (any (has_document item.document_id) rows)) [
      | inr n ↦ n
      | inl y ↦ y ∙ sym (stable-any (λ r. true) y) ∙ ap (any (λ (r : Criteria). true)) f
    ]

    no_clash_old :
        (c : Criteria)
        → filter (has_stable item.stable_id) rows ≡ c ∷ []
        → taken_by_other c.id item.document_id rows ≡ false
    unfolding taken_by_other
    no_clash_old c f =
        elim (Bool-cases (any (λ r. not (r.id == c.id) && has_document item.document_id r) rows)) [
          | inr n ↦ n
          | inl y ↦
              y
              ∙ sym (stable-any (λ r. not (r.id == c.id)) y)
              ∙ ap (any (λ r. not (r.id == c.id))) f
              ∙ ground (arith, ==_refl c.id)
        ]

    add-Owned :
        (rows' : List Criteria)
        → add_row rows (cloud_row parse now item) ≡ done rows'
        → all (is_owned sids) rows' ≡ true
    unfolding add_row cloud_row
    add-Owned rows' h =
        let e : rows' ≡ rows ++ record (cloud_row parse now item) { id = next_id rows } ∷ [] =
          ground arith in
        rw e (
          all-append (is_owned sids) rows _ owned
            (rw listed (rw (text_eq_refl item.stable_id) refl)))

    update-Owned :
        (c : Criteria) (rs : List Criteria)
        → any (λ r. not (has_stable item.stable_id r) && r.id == c.id) rs ≡ false
        → all (is_owned sids) rs ≡ true
        → all (is_owned sids) (update_row c.id (overwrite parse item) rs) ≡ true
    unfolding update_row overwrite
    update-Owned c [] n o = refl
    update-Owned c (r ∷ rs) n o = elim (Bool-cases (r.id == c.id)) [
      | inr other ↦ ground (arith, update-Owned c rs)
      | inl same ↦ rw same (rw listed (ground (arith, update-Owned c rs)))
    ]

    found_at :
        (o : Outcome (Option Criteria))
        → get_criteria_by_stable_id rows item.stable_id ≡ o
        → UniqueIds rows
        → UniqueStable rows
        → (rows' : List Criteria) × (upsert_found parse now rows item o ≡ done rows')
          × (all (is_owned sids) rows' ≡ true)
    unfolding upsert_found add_row document_taken cloud_row
    found_at (raised e) f u s = absurd (
        never (filter (has_stable item.stable_id) rows)
          (length_le_one rows item.stable_id (s item.stable_id)) f)
      where
        never : (xs : List Criteria) → length xs ≤ 1 → scalar_one_or_none xs ≡ raised e → ⊥
        never [] l h = cc
        never (x ∷ []) l h = cc
        never (x ∷ y ∷ xs) l h = absurd (omega arith)
    found_at (done none) f u s =
        let free = no_clash_new (found_none item.stable_id rows f) in
        (
          rows ++ record (cloud_row parse now item) { id = next_id rows } ∷ [],
          rw free refl,
          add-Owned (rows ++ record (cloud_row parse now item) { id = next_id rows } ∷ [])
              (rw free refl),
        )
    found_at (done (some c)) f u s = (
      update_row c.id (overwrite parse item) rows,
      rw (no_clash_old c (found_one item.stable_id c rows f)) refl,
      update-Owned c rows (only_row item.stable_id c rows u (found_one item.stable_id c rows f))
          owned,
    )

    -- The upsert of a listed document goes through, and keeps the documents with their stable ids.
    pub upsert_from_cloud-done :
        UniqueIds rows
        → UniqueStable rows
        → (rows' : List Criteria) × (upsert_from_cloud parse now rows item ≡ done rows')
          × (all (is_owned sids) rows' ≡ true)
    unfolding upsert_from_cloud
    upsert_from_cloud-done u s = found_at (get_criteria_by_stable_id rows item.stable_id) refl u s
