-- ===== src/Criteria/Clean/Laws.antt =====
-- What the cleaned alias map has under each stable id.
use elp_gemini.Base.{
  Text, text_eq, text_eq_iff, ◌≡◌, refl, sym, ap, ◌∙◌, ◌⊎◌, inl, inr, Bool, true, false, ◌||◌,
  Option, none, some, List, [], ◌∷◌, ◌++◌, arith, if◌then◌else◌, Bool-cases, is_some, filter, any,
  all,
}
use mathlib.Core.Option
use elp_gemini.Base.Dicts.{
  in_texts, opt_is, lookup, has, insert, values, Distinct, lookup-insert, insert-Distinct,
  lookup-has, text_eq_refl, text_eq_sym,
}
use elp_gemini.Criteria.{done, ◌>>=◌, Document, AliasMapEntry}
use elp_gemini.Criteria.Clean.{
  document_stable_id, add_stable_ids, stable_ids_by_document, normalize_entry,
  normalize_active_entries, new_entry, at_key, with_entry, add_missing, clean,
}

any-key-insert :
    (f : Text → Bool) (k v : Text) (m : List (Text × Text))
    → any (λ (e : Text × Text). f e.0) (insert k v m) ≡ (f k || any (λ e. f e.0) m)
unfolding insert
any-key-insert f k v [] = ground arith
any-key-insert f k v (e ∷ m) = elim (Bool-cases (text_eq e.0 k)) [
  | inl y ↦ rw y (ground (arith, ap f ((text_eq_iff e.0 k).0 y)))
  | inr n ↦ rw n (ground (arith, any-key-insert f k v m))
]

any-key-add :
    (digest : Text → Text) (f : Text → Bool) (sids : List (Text × Text)) (ds : List Document)
    → any (λ (e : Text × Text). f e.0) (add_stable_ids digest sids ds)
      ≡ (any (λ e. f e.0) sids || any (λ d. f d.document_id) ds)
unfolding add_stable_ids
any-key-add digest f sids [] = ground arith
any-key-add digest f sids (d ∷ ds) = ground (
  arith,
  any-key-add digest f (insert d.document_id (document_stable_id digest d) sids) ds,
  any-key-insert f d.document_id (document_stable_id digest d) sids,
)

add-Distinct :
    (digest : Text → Text) (sids : List (Text × Text)) (ds : List Document)
    → Distinct sids
    → Distinct (add_stable_ids digest sids ds)
unfolding add_stable_ids
add-Distinct digest sids [] h = h
add-Distinct digest sids (d ∷ ds) h =
    add-Distinct digest (insert d.document_id (document_stable_id digest d) sids) ds
      (insert-Distinct d.document_id (document_stable_id digest d) sids h)

-- `f` has the entries of a dict.
abbrev Agrees : (Text → Option Text) → List (Text × Text) → Type 0
Agrees f [] = Unit
Agrees f (e ∷ m) = (f e.0 ≡ some e.1) × Agrees f m

values-any :
    (f : Text → Option Text) (k : Text) (m : List (Text × Text))
    → Agrees f m
    → in_texts k (values m) ≡ any (λ e. opt_is (f e.0) k) m
unfolding values
values-any f k [] a = refl
values-any f k (e ∷ m) a = rw (a.0) (ground (arith, values-any f k m a.1))

skip-Agrees :
    (e : Text × Text) (f : Text → Option Text) (m : List (Text × Text))
    → has e.0 m ≡ false
    → Agrees f m
    → Agrees (λ k. if text_eq e.0 k then some e.1 else f k) m
unfolding has
skip-Agrees e f [] h a = tt
skip-Agrees e f (x ∷ m) h a =
    (ground (arith, text_eq_sym e.0 x.0, a.0), skip-Agrees e f m (ground arith) a.1)

lookup-Agrees : (m : List (Text × Text)) → Distinct m → Agrees (λ k. lookup k m) m
unfolding lookup
lookup-Agrees [] d = tt
lookup-Agrees (e ∷ m) d =
    (rw (text_eq_refl e.0) refl, skip-Agrees e (λ k. lookup k m) m d.0 (lookup-Agrees m d.1))

module _ (digest : Text → Text) (docs : List Document) where
  -- The stable ids of the documents, one way and the other.
  pub values-stable_ids_by_document :
      (k : Text)
      → in_texts k (values (stable_ids_by_document digest docs))
        ≡ any (λ d. opt_is (lookup d.document_id (stable_ids_by_document digest docs)) k) docs
  unfolding stable_ids_by_document
  values-stable_ids_by_document k =
      values-any (λ x. lookup x (add_stable_ids digest [] docs)) k (add_stable_ids digest [] docs)
        (lookup-Agrees (add_stable_ids digest [] docs) (add-Distinct digest [] docs tt))
      ∙ any-key-add digest (λ x. opt_is (lookup x (add_stable_ids digest [] docs)) k) [] docs

lookup-add :
    (digest : Text → Text) (j : Text) (sids : List (Text × Text)) (ds : List Document)
    → is_some (lookup j (add_stable_ids digest sids ds))
      ≡ (is_some (lookup j sids) || any (λ d. text_eq d.document_id j) ds)
unfolding add_stable_ids
lookup-add digest j sids [] = ground arith
lookup-add digest j sids (d ∷ ds) = ground (
  arith,
  lookup-add digest j (insert d.document_id (document_stable_id digest d) sids) ds,
  lookup-insert d.document_id j (document_stable_id digest d) sids,
)

-- Every document has a stable id in the dict.
abbrev pub Covered : List (Text × Text) → List Document → Type 0
Covered sids ds = all (λ d. is_some (lookup d.document_id sids)) ds ≡ true

covered :
    (sids : List (Text × Text)) (ds : List Document)
    → ((j : Text) → any (λ d. text_eq d.document_id j) ds ≡ true → is_some (lookup j sids) ≡ true)
    → Covered sids ds
covered sids [] h = refl
covered sids (d ∷ ds) h =
    rw (h d.document_id (rw (text_eq_refl d.document_id) refl))
      (covered sids ds (λ j a. h j (ground arith)))

pub stable_ids_by_document-Covered :
    (digest : Text → Text) (docs : List Document)
    → Covered (stable_ids_by_document digest docs) docs
unfolding stable_ids_by_document lookup
stable_ids_by_document-Covered digest docs =
    covered (add_stable_ids digest [] docs) docs (λ j a. lookup-add digest j [] docs ∙ a)

module _ (now : Text → Text) (sids : List (Text × Text)) where
  -- What step 4b leaves under a stable id.
  abbrev completed : Text → List (Text × AliasMapEntry) → Bool → Option AliasMapEntry
  completed k entries named =
      if has k entries then lookup k entries else if named then some (new_entry (now k)) else none

  lookup-snoc :
      (k sid : Text) (v : AliasMapEntry) (m : List (Text × AliasMapEntry))
      → lookup k (m ++ (sid, v) ∷ [])
        ≡ (if has k m then lookup k m else if text_eq sid k then some v else none)
  unfolding lookup has
  lookup-snoc k sid v [] = refl
  lookup-snoc k sid v (e ∷ m) = ground (arith, lookup-snoc k sid v m)

  has-snoc :
      (k sid : Text) (v : AliasMapEntry) (m : List (Text × AliasMapEntry))
      → has k (m ++ (sid, v) ∷ []) ≡ (has k m || text_eq sid k)
  unfolding has
  has-snoc k sid v [] = ground arith
  has-snoc k sid v (e ∷ m) = ground (arith, has-snoc k sid v m)

  completed-with_entry :
      (k sid : Text) (entries : List (Text × AliasMapEntry)) (named : Bool)
      → completed k (with_entry now entries sid) named
        ≡ completed k entries (text_eq sid k || named)
  completed-with_entry k sid entries named = elim (Bool-cases (has sid entries)) [
    | inl y ↦ rw y (same (Bool-cases (text_eq sid k)) y)
    | inr n ↦ rw n (
        ground (
          arith,
          has-snoc k sid (new_entry (now sid)) entries,
          lookup-snoc k sid (new_entry (now sid)) entries,
          λ (e : text_eq sid k ≡ true). ap now ((text_eq_iff sid k).0 e),
        ))
  ]
    where
      same :
          (text_eq sid k ≡ true) ⊎ (text_eq sid k ≡ false)
          → has sid entries ≡ true
          → completed k entries named ≡ completed k entries (text_eq sid k || named)
      same (inl e) y = rw (sym ((text_eq_iff sid k).0 e)) (rw y refl)
      same (inr n) y = rw n refl

  add_missing-lookup :
      (entries : List (Text × AliasMapEntry)) (ds : List Document)
      → Covered sids ds
      → (all_entries : List (Text × AliasMapEntry)) × (add_missing now sids entries ds
          ≡ done all_entries)
        × ((k : Text)
            → lookup k all_entries
              ≡ completed k entries (any (λ d. opt_is (lookup d.document_id sids) k) ds))
  unfolding add_missing
  add_missing-lookup entries [] h = (entries, refl, λ k. ground (arith, lookup-has k entries))
  add_missing-lookup entries (d ∷ ds) h =
      at (lookup d.document_id sids) (ground arith)
        (λ sid. add_missing-lookup (with_entry now entries sid) ds (ground arith))
    where
      at :
          (o : Option Text)
          → is_some o ≡ true
          → ((sid : Text)
              → (all_entries : List (Text × AliasMapEntry)) × (add_missing now sids
                    (with_entry now entries sid)
                    ds
                  ≡ done all_entries)
                × ((k : Text)
                    → lookup k all_entries
                      ≡ completed k
                          (with_entry now entries sid)
                          (any (λ d. opt_is (lookup d.document_id sids) k) ds)))
          → (all_entries : List (Text × AliasMapEntry)) × ((at_key o >>= λ sid.
                add_missing now sids (with_entry now entries sid) ds)
              ≡ done all_entries)
            × ((k : Text)
                → lookup k all_entries
                  ≡ completed k entries
                      (opt_is o k || any (λ d. opt_is (lookup d.document_id sids) k) ds))
      at none h ih = cc
      at (some sid) h ih =
          let r = ih sid in
          (
            r.0,
            r.1,
            λ k.
                r.2 k
                ∙ completed-with_entry k sid entries
                    (any (λ d. opt_is (lookup d.document_id sids) k) ds),
          )

lookup-kept :
    (k : Text) (keep : List Text) (entries : List (Text × AliasMapEntry))
    → lookup k (filter (λ e. in_texts e.0 keep) entries)
      ≡ (if in_texts k keep then lookup k entries else none)
unfolding lookup
lookup-kept k keep [] = ground arith
lookup-kept k keep (e ∷ entries) = elim (Bool-cases (text_eq e.0 k)) [
  | inl y ↦
      ground
        (arith, lookup-kept k keep entries, ap (λ j. in_texts j keep) ((text_eq_iff e.0 k).0 y), y)
  | inr n ↦ ground (arith, lookup-kept k keep entries, n)
]

has-lookup {ℓ} : {V : Type ℓ} (k : Text) (m : List (Text × V)) → has k m ≡ is_some (lookup k m)
unfolding has lookup
has-lookup k [] = refl
has-lookup k (e ∷ m) = ground (arith, has-lookup k m)

lookup-normalize :
    (k : Text) (entries : List (Text × AliasMapEntry))
    → lookup k (normalize_active_entries entries)
      ≡ Option.map (normalize_entry k) (lookup k entries)
unfolding lookup normalize_active_entries
lookup-normalize k [] = refl
lookup-normalize k (e ∷ entries) = elim (Bool-cases (text_eq e.0 k)) [
  | inl y ↦ rw y (ap (λ j. some (normalize_entry j e.1)) ((text_eq_iff e.0 k).0 y))
  | inr n ↦ rw n (lookup-normalize k entries)
]

-- The entry that a document of the remote store is to have: its own, or a new active one, and never
-- an active one for a surrogate.
abbrev pub entry_or : AliasMapEntry → Option AliasMapEntry → AliasMapEntry
entry_or other none = other
entry_or other (some entry) = entry

unfoldable pub target_entry : (Text → Text) → List (Text × AliasMapEntry) → Text → AliasMapEntry
target_entry now entries k = normalize_entry k (entry_or (new_entry (now k)) (lookup k entries))

-- The cleaned map has the stable ids of the documents, and no other.
pub clean-lookup :
    (digest now : Text → Text) (docs : List Document) (entries : List (Text × AliasMapEntry))
    → (cleaned : List (Text × AliasMapEntry)) × (clean now
          (stable_ids_by_document digest docs)
          docs
          entries
        ≡ done cleaned)
      × ((k : Text)
          → lookup k cleaned ≡ (
              if in_texts k (values (stable_ids_by_document digest docs))
              then some (target_entry now entries k)
              else none))
unfolding clean target_entry
clean-lookup digest now docs entries =
    let sids = stable_ids_by_document digest docs in
    let kept = filter (λ (e : Text × AliasMapEntry). in_texts e.0 (values sids)) entries in
    let r = add_missing-lookup now sids kept docs (stable_ids_by_document-Covered digest docs) in
    (
      normalize_active_entries r.0,
      rw r.1 refl,
      λ k.
          lookup-normalize k r.0
          ∙ ap (Option.map (normalize_entry k)) (r.2 k)
          ∙ at k (lookup k entries) (in_texts k (values sids)) (lookup-kept k (values sids) entries)
              (has-lookup k kept) (values-stable_ids_by_document digest docs k),
    )
  where
    at :
        (k : Text) (o : Option AliasMapEntry) (b : Bool)
        → lookup k (
            filter
              (λ (e : Text × AliasMapEntry).
                in_texts e.0 (values (stable_ids_by_document digest docs)))
              entries)
          ≡ (if b then o else none)
        → has k (
            filter
              (λ (e : Text × AliasMapEntry).
                in_texts e.0 (values (stable_ids_by_document digest docs)))
              entries)
          ≡ is_some (
              lookup k (
                filter
                  (λ (e : Text × AliasMapEntry).
                    in_texts e.0 (values (stable_ids_by_document digest docs)))
                  entries))
        → b ≡ any (λ d. opt_is (lookup d.document_id (stable_ids_by_document digest docs)) k) docs
        → Option.map (normalize_entry k) (
            completed now
              (stable_ids_by_document digest docs)
              k
              (filter
                (λ (e : Text × AliasMapEntry).
                  in_texts e.0 (values (stable_ids_by_document digest docs)))
                entries)
              (any
                (λ d. opt_is (lookup d.document_id (stable_ids_by_document digest docs)) k)
                docs))
          ≡ (if b then some (normalize_entry k (entry_or (new_entry (now k)) o)) else none)
    at k none true l h v = rw (h ∙ ap is_some l) (rw (sym v) refl)
    at k (some e) true l h v = rw (h ∙ ap is_some l) (rw l refl)
    at k o false l h v = rw (h ∙ ap is_some l) (rw (sym v) refl)
