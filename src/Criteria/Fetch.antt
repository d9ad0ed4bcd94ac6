-- ===== src/Criteria/Fetch.antt =====
-- The alias map in the remote store: `fetch` and `replace` of
-- app/services/criteria_alias_map_service.py. The listing, the parsing of a document and the deletions
-- are the remote store's and pydantic's; what they answer is a parameter.
pub mod Newest
pub mod Upload
pub mod Tests
use elp_gemini.Base.{
  Text, codes, text_eq, text_eq_iff, ℕ, zero, suc, ◌+◌, ◌-◌, ◌*◌, ◌/◌, ◌%◌, ◌≤◌, ◌<◌, min, max,
  String, ◌≡◌, refl, sym, ap, subst, ◌∙◌, ◌≢◌, ◌↔◌, ◌⊎◌, inl, inr, Bool, true, false, ◌&&◌, ◌||◌,
  not, Option, none, some, List, [], ◌∷◌, ◌++◌, map, append_assoc, append-nil, arith, ltb, leb,
  ◌==◌, if◌then◌else◌, leb→le, le→leb, ltb→lt, ==_iff, ==_refl, Bool-cases, Option-cases,
  &&-eq-true, is_some, opt_eq, some_inj, length, get_elem?, filter, any, all, find, count,
  get_last?, order_by, any-append, count-append, filter-append, any-filter, any-order_by,
  length-order_by, length-append, length-filter_le, elem, zip, length-map, List-cases, get_elem?-lt,
}
use elp_gemini.Criteria.{Fault, remote, Outcome, raised, done, ◌>>=◌, AliasMap}

-- `_ParsedAliasMapDoc`
pub record ParsedDoc : Type 0 where
  pub name : Text
  pub alias_map : AliasMap
  pub updated_at : ℕ

-- `_UnparseableAliasMapDoc`
pub record UnparseableDoc : Type 0 where
  pub name : Text
  pub error : Text
  pub updated_at : Option ℕ

-- A document of type "alias_map", as the loop over the listing reads it.
pub data AliasDoc : Type 0 where
  readable : ParsedDoc → AliasDoc
  unreadable : UnparseableDoc → AliasDoc

unfoldable pub parsed_docs : List AliasDoc → List ParsedDoc
parsed_docs [] = []
parsed_docs (AliasDoc.readable p ∷ ds) = p ∷ parsed_docs ds
parsed_docs (AliasDoc.unreadable b ∷ ds) = parsed_docs ds

unfoldable pub unparseable_docs : List AliasDoc → List UnparseableDoc
unparseable_docs [] = []
unparseable_docs (AliasDoc.readable p ∷ ds) = unparseable_docs ds
unparseable_docs (AliasDoc.unreadable b ∷ ds) = b ∷ unparseable_docs ds

-- `sort(key=updated_at, reverse=True)`, which keeps the order of equal keys.
insert_doc : ParsedDoc → List ParsedDoc → List ParsedDoc
insert_doc p [] = p ∷ []
insert_doc p (q ∷ qs) = if leb q.updated_at p.updated_at then p ∷ q ∷ qs else q ∷ insert_doc p qs

unfoldable pub sort_newest : List ParsedDoc → List ParsedDoc
unfolding insert_doc
sort_newest [] = []
sort_newest (p ∷ ps) = insert_doc p (sort_newest ps)

abbrev pub not_older : ℕ → Option ℕ → Bool
not_older newest none = true
not_older newest (some t) = leb newest t

-- The first unreadable document that is undated or not older than the newest.
abbrev pub first_bad : ℕ → List UnparseableDoc → Option UnparseableDoc
first_bad newest bad = find (λ b. not_older newest b.updated_at) bad

abbrev pub names_of : List ParsedDoc → List Text
names_of ps = map (λ p. p.name) ps

abbrev pub bad_names : ℕ → List UnparseableDoc → List Text
bad_names newest bad = map (λ b. b.name) (filter (λ b. not (not_older newest b.updated_at)) bad)

-- The result of the call, with the names of the documents that it tries to delete.
pub record Fetched : Type 0 where
  pub found : Option (Text × AliasMap)
  pub cleanup_names : List Text

-- `AliasMapParseError` of a document.
abbrev pub parse_error : UnparseableDoc → Fault
parse_error b = remote b.error

unfoldable pub chosen :
    ParsedDoc → List ParsedDoc → List UnparseableDoc → Option UnparseableDoc → Outcome Fetched
chosen newest older bad (some b) = raised (parse_error b)
chosen newest older bad none = done (record {
  found = some (newest.name, newest.alias_map);
  cleanup_names = names_of older ++ bad_names newest.updated_at bad;
})

unfoldable pub choose : List ParsedDoc → List UnparseableDoc → Outcome Fetched
unfolding chosen
choose [] [] = done (record { found = none; cleanup_names = [] })
choose [] (b ∷ bs) = raised (parse_error b)
choose (newest ∷ older) bad = chosen newest older bad (first_bad newest.updated_at bad)

-- `fetch`: the listing of the store, which may be missing, in the order in which it is read.
unfoldable pub fetch : Outcome (Option (List AliasDoc)) → Outcome Fetched
unfolding choose sort_newest parsed_docs unparseable_docs
fetch (raised e) = raised e
fetch (done none) = done (record { found = none; cleanup_names = [] })
fetch (done (some docs)) = choose (sort_newest (parsed_docs docs)) (unparseable_docs docs)
