-- ===== src/Criteria/Reconcile/Rebuild.antt =====
-- The rebuild of the table of criteria from the remote documents.
use elp_gemini.Base.{
  Text, codes, text_eq, text_eq_iff, ℕ, ◌≡◌, refl, sym, ap, ◌∙◌, ◌⊎◌, inl, inr, Bool, true, false,
  ◌&&◌, ◌||◌, Option, none, some, List, [], ◌∷◌, arith, if◌then◌else◌, Bool-cases, is_some, any,
  all, find, count,
}
use mathlib.Core.Option
use elp_gemini.Base.Dicts.{text_eq_refl, in_texts, opt_is, lookup, values}
use elp_gemini.Criteria.{Outcome, raised, done, ◌>>=◌, Document, AliasMapEntry, Criteria}
use elp_gemini.Criteria.Table.{has_stable}
use elp_gemini.Criteria.Table.Groups.{UniqueIds, UniqueStable}
use elp_gemini.Criteria.Table.Keep.{
  delete_by_stable_ids_except-all, count-delete_by_stable_ids_except,
  delete_by_stable_ids_except-UniqueStable, delete_by_stable_ids_except-UniqueIds,
}
use elp_gemini.Criteria.Table.View.{Shown, shown, shown_item, view}
use elp_gemini.Criteria.Table.Upsert.{
  upsert_from_cloud-view, upsert_from_cloud-UniqueIds, upsert_from_cloud-UniqueStable,
}
use elp_gemini.Criteria.Table.Owned.{is_owned, upsert_from_cloud-done}
use elp_gemini.Criteria.Table.Sync.{
  CloudRow, parsed, upsert_from_cloud, delete_by_stable_ids_except,
}
use elp_gemini.Criteria.Clean.{kv_string, stable_ids_by_document, at_key}
use elp_gemini.Criteria.Clean.Laws.{
  Covered, stable_ids_by_document-Covered, values-stable_ids_by_document,
}
use elp_gemini.Criteria.Reconcile.{Cloud, cloud_item, upsert_all, rebuild, title_of, or_text}

-- What a row shows of an entry of the alias map.
abbrev pub shown_entry : (Text → Option ℕ) → AliasMapEntry → Shown
shown_entry parse entry = record {
  alias = entry.alias;
  status = entry.status;
  activated_at = parsed parse entry.activated_at;
}

pub >>=-eq-done {ℓ κ} :
    {A : Type ℓ} {B : Type κ} (m : Outcome A) (f : A → Outcome B) {b : B}
    → (m >>= f) ≡ done b
    → (a : A) × (m ≡ done a) × (f a ≡ done b)
>>=-eq-done (raised e) f h = cc
>>=-eq-done (done a) f h = (a, refl, h)

at_key-eq {ℓ} : {V : Type ℓ} (o : Option V) (v : V) → at_key o ≡ done v → o ≡ some v
at_key-eq none v h = cc
at_key-eq (some w) v h = cc

module _ (cloud : Cloud) (sids : List (Text × Text)) (cleaned : List (Text × AliasMapEntry)) where
  cloud_item-eq :
      (d : Document) (item : CloudRow)
      → cloud_item cloud sids cleaned d ≡ done item
      → (lookup d.document_id sids ≡ some item.stable_id)
        × (Option.map (shown_entry cloud.parse_time) (lookup item.stable_id cleaned)
            ≡ some (shown_item cloud.parse_time item))
  unfolding cloud_item
  cloud_item-eq d item h =
      let s = >>=-eq-done (at_key (lookup d.document_id sids)) _ h in
      let e = >>=-eq-done (at_key (lookup s.0 cleaned)) _ s.2 in
      let found = at_key-eq (lookup s.0 cleaned) e.0 e.1 in
      let same : item.stable_id ≡ s.0 = ground (arith, e.2) in
      (
        at_key-eq (lookup d.document_id sids) s.0 s.1 ∙ ap some (sym same),
        rw (same, found) (ground (arith, e.2)),
      )

  -- Each document that is listed decides the entry of its stable id; the other entries stay.
  upsert_all-view :
      (rows rows' : List Criteria) (ds : List Document)
      → UniqueIds rows
      → upsert_all cloud sids cleaned rows ds ≡ done rows'
      → (k : Text)
      → view rows' k ≡ (
          if any (λ d. opt_is (lookup d.document_id sids) k) ds
          then Option.map (shown_entry cloud.parse_time) (lookup k cleaned)
          else view rows k)
  unfolding upsert_all
  upsert_all-view rows rows' [] u h k = ground (arith, h)
  upsert_all-view rows rows' (d ∷ ds) u h k =
      let i = >>=-eq-done (cloud_item cloud sids cleaned d) _ h in
      let r = >>=-eq-done (upsert_from_cloud cloud.parse_time cloud.now rows i.0) _ i.2 in
      let e = cloud_item-eq d i.0 i.1 in
      let u' = upsert_from_cloud-UniqueIds cloud.parse_time cloud.now rows r.0 i.0 r.1 u in
      rw (e.0) (
        upsert_all-view r.0 rows' ds u' r.2 k
        ∙ step i.0 (view r.0 k) e.1
            (upsert_from_cloud-view cloud.parse_time cloud.now rows r.0 i.0 r.1 u k))
    where
      step :
          (item : CloudRow) (v : Option Shown)
          → Option.map (shown_entry cloud.parse_time) (lookup item.stable_id cleaned)
            ≡ some (shown_item cloud.parse_time item)
          → v ≡ (
              if text_eq item.stable_id k
              then some (shown_item cloud.parse_time item)
              else view rows k)
          → (if any (λ d. opt_is (lookup d.document_id sids) k) ds
              then Option.map (shown_entry cloud.parse_time) (lookup k cleaned)
              else v)
            ≡ (if text_eq item.stable_id k || any (λ d. opt_is (lookup d.document_id sids) k) ds
                then Option.map (shown_entry cloud.parse_time) (lookup k cleaned)
                else view rows k)
      step item v e w = elim (Bool-cases (text_eq item.stable_id k)) [
        | inl y ↦ rw y (
            ground (
              arith,
              w,
              y,
              e,
              ap (λ j. Option.map (shown_entry cloud.parse_time) (lookup j cleaned))
                  ((text_eq_iff item.stable_id k).0 y),
            ))
        | inr n ↦ rw n (ground (arith, w, n))
      ]

  upsert_all-UniqueStable :
      (rows rows' : List Criteria) (ds : List Document)
      → UniqueStable rows
      → upsert_all cloud sids cleaned rows ds ≡ done rows'
      → UniqueStable rows'
  unfolding upsert_all
  upsert_all-UniqueStable rows rows' [] u h k = ground (arith, h, u k)
  upsert_all-UniqueStable rows rows' (d ∷ ds) u h k =
      let i = >>=-eq-done (cloud_item cloud sids cleaned d) _ h in
      let r = >>=-eq-done (upsert_from_cloud cloud.parse_time cloud.now rows i.0) _ i.2 in
      upsert_all-UniqueStable r.0 rows' ds
        (upsert_from_cloud-UniqueStable cloud.parse_time cloud.now rows r.0 i.0 r.1 u) r.2 k

  -- Every document that is listed has its stable id and an entry.
  cloud_item-done :
      (d : Document)
      → is_some (lookup d.document_id sids) ≡ true
      → ((k : Text)
          → opt_is (lookup d.document_id sids) k ≡ true
          → is_some (lookup k cleaned) ≡ true)
      → (item : CloudRow) × (cloud_item cloud sids cleaned d ≡ done item)
  unfolding cloud_item
  cloud_item-done d l c = named (lookup d.document_id sids) l c
    where
      entered :
          (sid : Text) (o : Option AliasMapEntry)
          → is_some o ≡ true
          → (item : CloudRow) × ((at_key o >>= λ entry. done (record {
            stable_id = sid;
            document_id = d.document_id;
            title =
                title_of cloud.decode_title
                  (kv_string d (codes "original_title_b64"))
                  (or_text d.display_name sid);
            display_alias = entry.alias;
            status = entry.status;
            created_at = kv_string d (codes "created_at");
            activated_at = entry.activated_at;
          }))
              ≡ done item)
      entered sid none h = cc
      entered sid (some entry) h = (_, refl)

      named :
          (o : Option Text)
          → is_some o ≡ true
          → ((k : Text) → opt_is o k ≡ true → is_some (lookup k cleaned) ≡ true)
          → (item : CloudRow) × ((at_key o >>= λ sid. at_key (lookup sid cleaned) >>= λ entry.
                done (record {
                  stable_id = sid;
                  document_id = d.document_id;
                  title =
                      title_of cloud.decode_title
                        (kv_string d (codes "original_title_b64"))
                        (or_text d.display_name sid);
                  display_alias = entry.alias;
                  status = entry.status;
                  created_at = kv_string d (codes "created_at");
                  activated_at = entry.activated_at;
                }))
              ≡ done item)
      named none l c = cc
      named (some sid) l c = entered sid (lookup sid cleaned) (c sid (text_eq_refl sid))

  cloud_item-document :
      (d : Document) (item : CloudRow)
      → cloud_item cloud sids cleaned d ≡ done item
      → item.document_id ≡ d.document_id
  unfolding cloud_item
  cloud_item-document d item h =
      let s = >>=-eq-done (at_key (lookup d.document_id sids)) _ h in
      let e = >>=-eq-done (at_key (lookup s.0 cleaned)) _ s.2 in ground (arith, e.2)

  upsert_all-done :
      (rows : List Criteria) (ds : List Document)
      → Covered sids ds
      → ((k : Text)
          → any (λ d. opt_is (lookup d.document_id sids) k) ds ≡ true
          → is_some (lookup k cleaned) ≡ true)
      → UniqueIds rows
      → UniqueStable rows
      → all (is_owned sids) rows ≡ true
      → (rows' : List Criteria) × (upsert_all cloud sids cleaned rows ds ≡ done rows')
  unfolding upsert_all
  upsert_all-done rows [] l c u s o = (rows, refl)
  upsert_all-done rows (d ∷ ds) l c u s o =
      let i = cloud_item-done d (ground arith) (λ k e. c k (rw e refl)) in
      let e = cloud_item-eq d i.0 i.1 in
      let listed : lookup i.0.document_id sids ≡ some i.0.stable_id =
        ap (λ x. lookup x sids) (cloud_item-document d i.0 i.1) ∙ e.0 in
      let r = upsert_from_cloud-done sids i.0 listed cloud.parse_time cloud.now rows o u s in
      let rest =
        upsert_all-done r.0 ds (ground arith) (λ k a. c k (ground arith))
          (upsert_from_cloud-UniqueIds cloud.parse_time cloud.now rows r.0 i.0 r.1 u)
          (upsert_from_cloud-UniqueStable cloud.parse_time cloud.now rows r.0 i.0 r.1 s) r.2 in
      (rest.0, rw i.1 (rw r.1 rest.1))

find-count : (p : Criteria → Bool) (rows : List Criteria) → count p rows ≡ 0 → find p rows ≡ none
find-count p [] h = refl
find-count p (r ∷ rs) h = ground (arith, find-count p rs)

-- A rebuilt table is the cleaned alias map.
pub rebuild-view :
    (cloud : Cloud) (docs : List Document) (cleaned : List (Text × AliasMapEntry))
    (rows rows' : List Criteria)
    → UniqueIds rows
    → rebuild cloud (stable_ids_by_document cloud.digest docs) cleaned rows docs ≡ done rows'
    → (k : Text)
    → view rows' k ≡ (
        if in_texts k (values (stable_ids_by_document cloud.digest docs))
        then Option.map (shown_entry cloud.parse_time) (lookup k cleaned)
        else none)
unfolding rebuild view
rebuild-view cloud docs cleaned rows rows' u h k =
    let sids = stable_ids_by_document cloud.digest docs in
    let left = (delete_by_stable_ids_except (values sids) rows).0 in
    upsert_all-view cloud sids cleaned left rows' docs
      (delete_by_stable_ids_except-UniqueIds (values sids) rows u) h k
    ∙ rw (sym (values-stable_ids_by_document cloud.digest docs k)) (
        at (Bool-cases (in_texts k (values sids)))
          (count-delete_by_stable_ids_except (values sids) rows u k))
  where
    at :
        (in_texts k (values (stable_ids_by_document cloud.digest docs)) ≡ true)
          ⊎ (in_texts k (values (stable_ids_by_document cloud.digest docs)) ≡ false)
        → count
            (has_stable k)
            (delete_by_stable_ids_except (values (stable_ids_by_document cloud.digest docs)) rows).0
          ≡ (if in_texts k (values (stable_ids_by_document cloud.digest docs))
                && any (has_stable k) rows
              then 1
              else 0)
        → (if in_texts k (values (stable_ids_by_document cloud.digest docs))
            then Option.map (shown_entry cloud.parse_time) (lookup k cleaned)
            else view
                (delete_by_stable_ids_except
                  (values (stable_ids_by_document cloud.digest docs))
                  rows).0
                k)
          ≡ (if in_texts k (values (stable_ids_by_document cloud.digest docs))
              then Option.map (shown_entry cloud.parse_time) (lookup k cleaned)
              else none)
    at (inl y) c = rw y refl
    at (inr n) c = rw n (ap (Option.map shown) (find-count (has_stable k) _ (c ∙ rw n refl)))

pub rebuild-UniqueStable :
    (cloud : Cloud) (docs : List Document) (cleaned : List (Text × AliasMapEntry))
    (rows rows' : List Criteria)
    → UniqueIds rows
    → rebuild cloud (stable_ids_by_document cloud.digest docs) cleaned rows docs ≡ done rows'
    → UniqueStable rows'
unfolding rebuild
rebuild-UniqueStable cloud docs cleaned rows rows' u h =
    upsert_all-UniqueStable cloud (stable_ids_by_document cloud.digest docs) cleaned
      (delete_by_stable_ids_except (values (stable_ids_by_document cloud.digest docs)) rows).0 rows'
      docs
      (delete_by_stable_ids_except-UniqueStable (values (stable_ids_by_document cloud.digest docs))
        rows u)
      h

-- A rebuild goes through when every row with a remote document has it under the document's stable id.
pub rebuild-done :
    (cloud : Cloud) (docs : List Document) (cleaned : List (Text × AliasMapEntry))
    (rows : List Criteria)
    → ((k : Text)
        → in_texts k (values (stable_ids_by_document cloud.digest docs)) ≡ true
        → is_some (lookup k cleaned) ≡ true)
    → UniqueIds rows
    → all (is_owned (stable_ids_by_document cloud.digest docs)) rows ≡ true
    → (rows' : List Criteria) × (rebuild cloud
          (stable_ids_by_document cloud.digest docs)
          cleaned
          rows
          docs
        ≡ done rows')
unfolding rebuild
rebuild-done cloud docs cleaned rows c u o =
    let sids = stable_ids_by_document cloud.digest docs in
    upsert_all-done cloud sids cleaned (delete_by_stable_ids_except (values sids) rows).0 docs
      (stable_ids_by_document-Covered cloud.digest docs)
      (λ k a. c k (values-stable_ids_by_document cloud.digest docs k ∙ a))
      (delete_by_stable_ids_except-UniqueIds (values sids) rows u)
      (delete_by_stable_ids_except-UniqueStable (values sids) rows u)
      (delete_by_stable_ids_except-all (values sids) rows u (is_owned sids) o)
