-- ===== src/Criteria/Fetch/Newest.antt =====
-- Which alias map is taken, and which documents are deleted.
use elp_gemini.Base.{
  Text, text_eq, text_eq_iff, ℕ, ◌+◌, ◌≤◌, ◌≡◌, refl, sym, ap, subst, ◌∙◌, ◌⊎◌, inl, inr, true,
  false, ◌||◌, Option, none, some, List, [], ◌∷◌, ◌++◌, arith, leb, if◌then◌else◌, leb→le,
  Bool-cases, count,
}
use elp_gemini.Base.Dicts.{in_texts}
use elp_gemini.Criteria.{done, AliasMap}
use elp_gemini.Criteria.Fetch.{
  ParsedDoc, UnparseableDoc, AliasDoc, parsed_docs, unparseable_docs, insert_doc, sort_newest,
  not_older, first_bad, names_of, bad_names, Fetched, chosen, choose, fetch,
}

-- Not one of the documents is newer.
abbrev pub NoneNewer : ℕ → List AliasDoc → Type 0
NoneNewer t [] = Unit
NoneNewer t (AliasDoc.readable p ∷ ds) = (p.updated_at ≤ t) × NoneNewer t ds
NoneNewer t (AliasDoc.unreadable b ∷ ds) = (not_older t b.updated_at ≡ false) × NoneNewer t ds

abbrev AtMost : ℕ → List ParsedDoc → Type 0
AtMost t [] = Unit
AtMost t (p ∷ ps) = (p.updated_at ≤ t) × AtMost t ps

AtMost-le : (s t : ℕ) (ps : List ParsedDoc) → s ≤ t → AtMost s ps → AtMost t ps
AtMost-le s t [] h a = tt
AtMost-le s t (p ∷ ps) h a = (omega (arith, a.0), AtMost-le s t ps h a.1)

-- The head of the sorted list is the newest.
abbrev Headed : List ParsedDoc → Type 0
Headed [] = Unit
Headed (p ∷ ps) = AtMost p.updated_at ps

insert-Headed : (p : ParsedDoc) (qs : List ParsedDoc) → Headed qs → Headed (insert_doc p qs)
unfolding insert_doc
insert-Headed p [] h = tt
insert-Headed p (q ∷ qs) h = elim (Bool-cases (leb q.updated_at p.updated_at)) [
  | inl y ↦ rw y (leb→le _ _ y, AtMost-le q.updated_at p.updated_at qs (leb→le _ _ y) h)
  | inr n ↦ rw n (insert-AtMost q.updated_at p qs (ground arith) h)
]
  where
    insert-AtMost :
        (t : ℕ) (p : ParsedDoc) (qs : List ParsedDoc)
        → p.updated_at ≤ t
        → AtMost t qs
        → AtMost t (insert_doc p qs)
    insert-AtMost t p [] l a = (l, tt)
    insert-AtMost t p (r ∷ rs) l a = elim (Bool-cases (leb r.updated_at p.updated_at)) [
      | inl y ↦ rw y (l, a)
      | inr n ↦ rw n (a.0, insert-AtMost t p rs l a.1)
    ]

sort-Headed : (ps : List ParsedDoc) → Headed (sort_newest ps)
unfolding sort_newest
sort-Headed [] = tt
sort-Headed (p ∷ ps) = insert-Headed p (sort_newest ps) (sort-Headed ps)

insert-AtMost_inv :
    (t : ℕ) (p : ParsedDoc) (qs : List ParsedDoc)
    → AtMost t (insert_doc p qs)
    → (p.updated_at ≤ t) × AtMost t qs
unfolding insert_doc
insert-AtMost_inv t p [] a = (a.0, tt)
insert-AtMost_inv t p (q ∷ qs) a =
    at (Bool-cases (leb q.updated_at p.updated_at)) (insert-AtMost_inv t p qs) a
  where
    at :
        (leb q.updated_at p.updated_at ≡ true) ⊎ (leb q.updated_at p.updated_at ≡ false)
        → (AtMost t (insert_doc p qs) → (p.updated_at ≤ t) × AtMost t qs)
        → AtMost t (if leb q.updated_at p.updated_at then p ∷ q ∷ qs else q ∷ insert_doc p qs)
        → (p.updated_at ≤ t) × AtMost t (q ∷ qs)
    at (inl y) ih a = let b : AtMost t (p ∷ q ∷ qs) = rw y at a in b
    at (inr n) ih a =
        let b : AtMost t (q ∷ insert_doc p qs) = rw n at a in let c = ih b.1 in (c.0, (b.0, c.1))

sort-AtMost_inv : (t : ℕ) (ps : List ParsedDoc) → AtMost t (sort_newest ps) → AtMost t ps
unfolding sort_newest
sort-AtMost_inv t [] a = tt
sort-AtMost_inv t (p ∷ ps) a =
    let i = insert-AtMost_inv t p (sort_newest ps) a in (i.0, sort-AtMost_inv t ps i.1)

-- The documents that could not be read are dated and older.
abbrev Older : ℕ → List UnparseableDoc → Type 0
Older t [] = Unit
Older t (b ∷ bs) = (not_older t b.updated_at ≡ false) × Older t bs

first_bad-Older : (t : ℕ) (bad : List UnparseableDoc) → first_bad t bad ≡ none → Older t bad
first_bad-Older t [] h = tt
first_bad-Older t (b ∷ bs) h = elim (Bool-cases (not_older t b.updated_at)) [
  | inl y ↦ absurd (clash (rw y at h))
  | inr n ↦ (n, first_bad-Older t bs (rw n at h))
]
  where
    clash : some b ≡ none → ⊥
    clash e = cc

join-NoneNewer :
    (t : ℕ) (docs : List AliasDoc)
    → AtMost t (parsed_docs docs)
    → Older t (unparseable_docs docs)
    → NoneNewer t docs
unfolding parsed_docs unparseable_docs
join-NoneNewer t [] a o = tt
join-NoneNewer t (AliasDoc.readable p ∷ ds) a o = (a.0, join-NoneNewer t ds a.1 o)
join-NoneNewer t (AliasDoc.unreadable b ∷ ds) a o = (o.0, join-NoneNewer t ds a o.1)

-- How often a name stands among the documents.
abbrev pub doc_name : AliasDoc → Text
doc_name (AliasDoc.readable p) = p.name
doc_name (AliasDoc.unreadable b) = b.name

count-sort :
    (k : Text) (ps : List ParsedDoc)
    → count (λ (p : ParsedDoc). text_eq p.name k) (sort_newest ps)
      ≡ count (λ p. text_eq p.name k) ps
unfolding sort_newest
count-sort k [] = refl
count-sort k (p ∷ ps) = omega (arith, count-insert p (sort_newest ps), count-sort k ps)
  where
    count-insert :
        (p : ParsedDoc) (qs : List ParsedDoc)
        → count (λ (x : ParsedDoc). text_eq x.name k) (insert_doc p qs)
          ≡ (if text_eq p.name k then 1 else 0) + count (λ x. text_eq x.name k) qs
    count-insert p [] = refl
    count-insert p (q ∷ qs) = elim (Bool-cases (leb q.updated_at p.updated_at)) [
      | inl y ↦ rw y refl
      | inr n ↦ rw n (omega (arith, count-insert p qs))
    ]

count-docs :
    (k : Text) (docs : List AliasDoc)
    → count (λ d. text_eq (doc_name d) k) docs
      ≡ count (λ (p : ParsedDoc). text_eq p.name k) (parsed_docs docs)
        + count (λ (b : UnparseableDoc). text_eq b.name k) (unparseable_docs docs)
unfolding parsed_docs unparseable_docs
count-docs k [] = omega arith
count-docs k (AliasDoc.readable p ∷ ds) = omega (arith, count-docs k ds)
count-docs k (AliasDoc.unreadable b ∷ ds) = omega (arith, count-docs k ds)

in_texts-append :
    (k : Text) (xs ys : List Text) → in_texts k (xs ++ ys) ≡ (in_texts k xs || in_texts k ys)
in_texts-append k [] ys = refl
in_texts-append k (x ∷ xs) ys = ground (arith, in_texts-append k xs ys)

names_of-absent :
    (k : Text) (ps : List ParsedDoc)
    → count (λ (p : ParsedDoc). text_eq p.name k) ps ≡ 0
    → in_texts k (names_of ps) ≡ false
names_of-absent k [] h = refl
names_of-absent k (p ∷ ps) h = ground (arith, names_of-absent k ps)

bad_names-absent :
    (k : Text) (t : ℕ) (bs : List UnparseableDoc)
    → count (λ (b : UnparseableDoc). text_eq b.name k) bs ≡ 0
    → in_texts k (bad_names t bs) ≡ false
bad_names-absent k t [] h = refl
bad_names-absent k t (b ∷ bs) h = ground (arith, bad_names-absent k t bs)

abbrev Member : ParsedDoc → List ParsedDoc → Type 0
Member p [] = ⊥
Member p (q ∷ qs) = (q ≡ p) ⊎ Member p qs

insert-Member :
    (p q : ParsedDoc) (qs : List ParsedDoc) → Member p (insert_doc q qs) → (q ≡ p) ⊎ Member p qs
unfolding insert_doc
insert-Member p q [] w = w
insert-Member p q (x ∷ xs) w =
    at (Bool-cases (leb x.updated_at q.updated_at)) (insert-Member p q xs) w
  where
    moved : (q ≡ p) ⊎ Member p xs → (q ≡ p) ⊎ ((x ≡ p) ⊎ Member p xs)
    moved (inl e) = inl e
    moved (inr v) = inr (inr v)

    tail_at :
        ((Member p (insert_doc q xs)) → (q ≡ p) ⊎ Member p xs)
        → (x ≡ p) ⊎ Member p (insert_doc q xs)
        → (q ≡ p) ⊎ ((x ≡ p) ⊎ Member p xs)
    tail_at ih (inl e) = inr (inl e)
    tail_at ih (inr v) = moved (ih v)

    at :
        (leb x.updated_at q.updated_at ≡ true) ⊎ (leb x.updated_at q.updated_at ≡ false)
        → (Member p (insert_doc q xs) → (q ≡ p) ⊎ Member p xs)
        → Member p (if leb x.updated_at q.updated_at then q ∷ x ∷ xs else x ∷ insert_doc q xs)
        → (q ≡ p) ⊎ ((x ≡ p) ⊎ Member p xs)
    at (inl y) ih w = let v : Member p (q ∷ x ∷ xs) = rw y at w in v
    at (inr n) ih w = let v : Member p (x ∷ insert_doc q xs) = rw n at w in tail_at ih v

sort-Member : (p : ParsedDoc) (ps : List ParsedDoc) → Member p (sort_newest ps) → Member p ps
unfolding sort_newest
sort-Member p [] w = w
sort-Member p (q ∷ qs) w = at (insert-Member p q (sort_newest qs) w) (sort-Member p qs)
  where
    at :
        (q ≡ p) ⊎ Member p (sort_newest qs)
        → (Member p (sort_newest qs) → Member p qs)
        → (q ≡ p) ⊎ Member p qs
    at (inl e) ih = inl e
    at (inr v) ih = inr (ih v)

-- A readable document of the listing.
abbrev pub Among : ParsedDoc → List AliasDoc → Type 0
Among p [] = ⊥
Among p (AliasDoc.readable q ∷ ds) = (q ≡ p) ⊎ Among p ds
Among p (AliasDoc.unreadable b ∷ ds) = Among p ds

Member-Among : (p : ParsedDoc) (docs : List AliasDoc) → Member p (parsed_docs docs) → Among p docs
unfolding parsed_docs
Member-Among p [] w = w
Member-Among p (AliasDoc.readable q ∷ ds) (inl e) = inl e
Member-Among p (AliasDoc.readable q ∷ ds) (inr v) = inr (Member-Among p ds v)
Member-Among p (AliasDoc.unreadable b ∷ ds) w = Member-Among p ds w

module _ (docs : List AliasDoc) (r : Fetched) (name : Text) (m : AliasMap)
    (unique : count (λ d. text_eq (doc_name d) name) docs ≤ 1)
    (found : r.found ≡ some (name, m)) where
  chosen_at :
      (newest : ParsedDoc) (older : List ParsedDoc) (b : Option UnparseableDoc)
      → sort_newest (parsed_docs docs) ≡ newest ∷ older
      → first_bad newest.updated_at (unparseable_docs docs) ≡ b
      → chosen newest older (unparseable_docs docs) b ≡ done r
      → Among newest docs
        × (newest.name ≡ name)
        × (newest.alias_map ≡ m)
        × NoneNewer newest.updated_at docs
        × (in_texts name r.cleanup_names ≡ false)
  unfolding chosen
  chosen_at newest older (some b) s f h = cc
  chosen_at newest older none s f h =
      let same_name : newest.name ≡ name = ground (arith, h, found) in
      let same_map : newest.alias_map ≡ m = ground (arith, h, found) in
      let cleanup : r.cleanup_names
          ≡ names_of older ++ bad_names newest.updated_at (unparseable_docs docs) =
        ground (arith, h) in
      let head : AtMost newest.updated_at older = subst Headed s (sort-Headed (parsed_docs docs)) in
      let all_at_most : AtMost newest.updated_at (sort_newest (parsed_docs docs)) =
        subst (AtMost newest.updated_at) (sym s) (omega arith, head) in
      let counted : count (λ (p : ParsedDoc). text_eq p.name name) (newest ∷ older)
          ≡ count (λ (p : ParsedDoc). text_eq p.name name) (parsed_docs docs) =
        ap (count (λ (p : ParsedDoc). text_eq p.name name)) (sym s)
        ∙ count-sort name (parsed_docs docs) in
      let self : text_eq newest.name name ≡ true = (text_eq_iff newest.name name).1 same_name in
      let older_none : count (λ (p : ParsedDoc). text_eq p.name name) older ≡ 0 =
        ground (arith, counted, self, unique, count-docs name docs) in
      let bad_none : count (λ (b : UnparseableDoc). text_eq b.name name) (unparseable_docs docs)
          ≡ 0 =
        ground (arith, counted, self, unique, count-docs name docs) in
      (
        Member-Among newest docs
            (sort-Member newest (parsed_docs docs) (subst (Member newest) (sym s) (inl refl))),
        same_name,
        same_map,
        join-NoneNewer newest.updated_at docs
            (sort-AtMost_inv newest.updated_at (parsed_docs docs) all_at_most)
            (first_bad-Older newest.updated_at (unparseable_docs docs) f),
        ap (in_texts name) cleanup
            ∙ in_texts-append name (names_of older)
                (bad_names newest.updated_at (unparseable_docs docs))
            ∙ ground (
              arith,
              names_of-absent name older older_none,
              bad_names-absent name newest.updated_at (unparseable_docs docs) bad_none,
            ),
      )

  choose_at :
      (ps : List ParsedDoc)
      → sort_newest (parsed_docs docs) ≡ ps
      → choose ps (unparseable_docs docs) ≡ done r
      → (newest : ParsedDoc) × Among newest docs
        × (newest.name ≡ name)
        × (newest.alias_map ≡ m)
        × NoneNewer newest.updated_at docs
        × (in_texts name r.cleanup_names ≡ false)
  unfolding choose
  choose_at [] s h = absurd (none_found (unparseable_docs docs) h)
    where
      clash : ◌≡◌ {A = Option (Text × AliasMap)} none (some (name, m)) → ⊥
      clash e = cc

      none_found : (bad : List UnparseableDoc) → choose [] bad ≡ done r → ⊥
      none_found [] h = clash (ground (arith, h, found))
      none_found (b ∷ bs) h = cc
  choose_at (newest ∷ older) s h =
      let c =
        chosen_at newest older (first_bad newest.updated_at (unparseable_docs docs)) s refl h in
      (newest, c.0, c.1, c.2, c.3, c.4)

  -- The alias map that is taken is that of a readable document than which no readable one is newer
  -- and all unreadable ones are older; it is not among the documents that are deleted.
  pub fetch-newest :
      fetch (done (some docs)) ≡ done r
      → (newest : ParsedDoc) × Among newest docs
        × (newest.name ≡ name)
        × (newest.alias_map ≡ m)
        × NoneNewer newest.updated_at docs
        × (in_texts name r.cleanup_names ≡ false)
  unfolding fetch
  fetch-newest h = choose_at (sort_newest (parsed_docs docs)) refl h
