-- ===== src/Sim/Setup/Choose.antt =====
-- Which students a new session gets: `sample` and `resolve_refs` of
-- app/services/simulation/persona_pool.py, and the refs of the user's own personas as
-- session_service.py reads them. The pool's ids differ; the generator's draws are parameters.
pub mod Laws
use elp_gemini.Base.{
  Text, codes, text_eq, text_eq_iff, ℕ, zero, suc, ◌+◌, ◌-◌, ◌*◌, ◌/◌, ◌%◌, ◌≤◌, ◌<◌, min, max,
  String, ◌≡◌, refl, sym, ap, subst, ◌∙◌, ◌≢◌, ◌↔◌, ◌⊎◌, inl, inr, Bool, true, false, ◌&&◌, ◌||◌,
  not, Option, none, some, List, [], ◌∷◌, ◌++◌, map, append_assoc, append-nil, arith, ltb, leb,
  ◌==◌, if◌then◌else◌, leb→le, le→leb, ltb→lt, ==_iff, ==_refl, Bool-cases, Option-cases,
  &&-eq-true, is_some, opt_eq, some_inj, length, get_elem?, filter, any, all, find, count,
  get_last?, order_by, any-append, count-append, filter-append, any-filter, any-order_by,
  length-order_by, length-append, length-filter_le, elem, zip, length-map, List-cases, get_elem?-lt,
}
use elp_gemini.Base.Texts.{starts_with, show}
use elp_gemini.Base.Json.{Fields}
use elp_gemini.Base.Dicts.{in_texts, lookup, has, insert}
use elp_gemini.Sim.Errors.{Code, Result, ok, err, ◌>>=◌, ◌>>◌, raise_if, or_raise}
use elp_gemini.Sim.Model.{LibraryItem}
use elp_gemini.Sim.Setup.Library.{snapshot_for_session}
use elp_gemini.Sim.Setup.Names.{name_pool, assign_pseudonyms}

-- A record of the pool; `profile` is all of it.
pub record PoolRecord : Type 0 where
  pub id : ℕ
  pub grade : ℕ
  pub academic_level : Text
  pub gender : Option Text
  pub profile : Fields

pub record PersonaPick : Type 0 where
  pub ref : Text
  pub pseudonym : Text

-- No grade and no level are "all".
pub record RandomPick : Type 0 where
  pub n : ℕ
  pub grade : Option ℕ
  pub level : Option Text

pub data Selection : Type 0 where
  personas : List PersonaPick → Selection
  random : RandomPick → Selection

-- The draws of the generator: `rng.sample(LEVELS, 4)`, the index of the k-th choice in a list of a
-- length, and those of `assign_pseudonyms`, which starts a generator of its own.
pub record Draws : Type 0 where
  pub level_order : List Text
  pub choice_at : ℕ → ℕ → ℕ
  pub name_draw : ℕ → ℕ → ℕ

unfoldable pub requested : Selection → ℕ
requested (Selection.personas picks) = length picks
requested (Selection.random pick) = pick.n

abbrev pub has_grade : Option ℕ → PoolRecord → Bool
has_grade none r = true
has_grade (some g) r = r.grade == g

abbrev pub has_level : Text → PoolRecord → Bool
has_level level r = text_eq r.academic_level level

-- `order`
abbrev pub order_of : Draws → Option Text → List Text
order_of draws none = draws.level_order
order_of draws (some level) = level ∷ []

-- `order[i % len(order)]`; without an order it raises.
unfoldable pub level_at : List Text → ℕ → Option Text
level_at [] i = none
level_at (o ∷ os) i = get_elem? (o ∷ os) (i % suc (length os))

unfoldable pub bucket_of : Option Text → List PoolRecord → List PoolRecord
bucket_of none rows = []
bucket_of (some level) rows = filter (has_level level) rows

abbrev pub cons_ok {ℓ} : {A : Type ℓ} → A → Result (List A) → Result (List A)
cons_ok a (err e) = err e
cons_ok a (ok rs) = ok (a ∷ rs)

-- `rng.choice(bucket)` raises when the bucket is empty; the record leaves its bucket.
abbrev pub with_choice :
    Option PoolRecord
    → List PoolRecord
    → (List PoolRecord → Result (List PoolRecord))
    → Result (List PoolRecord)
with_choice none rows rest = err Code.unexpected
with_choice (some r) rows rest = cons_ok r (rest (filter (λ q. not (q.id == r.id)) rows))

-- The loop with i from its start; the buckets are the rows that are left, by their level.
unfoldable pub sample_from : Draws → List Text → List PoolRecord → ℕ → ℕ → Result (List PoolRecord)
unfolding bucket_of level_at
sample_from draws order rows i zero = ok []
sample_from draws order rows i (suc n) =
    let bucket = bucket_of (level_at order i) rows in
    with_choice (get_elem? bucket (draws.choice_at i (length bucket))) rows
      (λ left. sample_from draws order left (i + 1) n)

unfoldable pub sample : Draws → List PoolRecord → RandomPick → Result (List PoolRecord)
unfolding sample_from
sample draws pool pick =
    sample_from draws (order_of draws pick.level)
      (order_by (λ r. r.id) (filter (has_grade pick.grade) pool)) 0 pick.n

-- `len(set(names)) != len(names) or any(n not in NAME_POOL for n in names)`
unfoldable pub bad_names : List Text → Bool
bad_names [] = false
bad_names (n ∷ ns) = in_texts n ns || not (in_texts n name_pool) || bad_names ns

abbrev pub custom_prefix : Text
custom_prefix = codes "custom:"

abbrev pub is_custom : Text → Bool
is_custom ref = starts_with ref custom_prefix

abbrev pub is_digit : ℕ → Bool
is_digit c = leb 48 c && leb c 57

-- The number that a text of digits writes.
unfoldable pub digits_value : ℕ → Text → Option ℕ
digits_value acc [] = some acc
digits_value acc (c ∷ cs) =
    let rest = digits_value (acc * 10 + (c - 48)) cs in if is_digit c then rest else none

abbrev pub only_canonical : Text → Option ℕ → Option ℕ
only_canonical text none = none
only_canonical text (some n) = if text_eq (show n) text then some n else none

-- `i.isdecimal() and str(int(i)) == i` with `int(i)`, of the text behind the prefix.
unfoldable pub custom_id : Text → Option ℕ
unfolding digits_value
custom_id (c ∷ o ∷ d ∷ e ∷ f ∷ g ∷ h ∷ []) = none
custom_id (c ∷ o ∷ d ∷ e ∷ f ∷ g ∷ h ∷ i ∷ is) = only_canonical (i ∷ is) (digits_value 0 (i ∷ is))
custom_id text = none

abbrev pub with_id : Option ℕ → Result (List ℕ) → Result (List ℕ)
with_id none rest = err Code.unknown_persona
with_id (some i) (err e) = err e
with_id (some i) (ok ids) = ok (i ∷ ids)

unfoldable pub custom_ids : List Text → Result (List ℕ)
unfolding custom_id
custom_ids [] = ok []
custom_ids (r ∷ rs) = with_id (custom_id r) (custom_ids rs)

-- `resolve_refs`
unfoldable pub resolve_refs : List (Text × PoolRecord) → List Text → Result (List PoolRecord)
resolve_refs by_id [] = ok []
resolve_refs by_id (ref ∷ refs) =
    or_raise (lookup ref by_id) Code.unknown_persona >>= λ r. cons_ok r (resolve_refs by_id refs)

-- `{str(r["id"]): r for r in rows}`
unfoldable pub by_id_of : List PoolRecord → List (Text × PoolRecord)
by_id_of [] = []
by_id_of (r ∷ rs) = (show r.id, r) ∷ by_id_of rs

-- Who the students are before their profiles are adapted.
pub record Chosen : Type 0 where
  pub refs : List Text
  pub names : List Text
  pub custom : List (Text × LibraryItem)
  pub by_ref : List (Text × PoolRecord)

unfoldable pub choose_personas :
    List PoolRecord → List LibraryItem → ℕ → List PersonaPick → Result Chosen
unfolding custom_ids resolve_refs bad_names by_id_of
choose_personas pool library user_id picks =
    let refs = map (λ p. p.ref) picks in
    let names = map (λ p. p.pseudonym) picks in
    let custom_refs = filter is_custom refs in
    let dataset_refs = filter (λ r. not (is_custom r)) refs in
    raise_if (bad_names names) Code.duplicate_pseudonym >> custom_ids custom_refs >>= λ ids.
    snapshot_for_session library user_id ids >>= λ items.
    resolve_refs (by_id_of pool) dataset_refs >>= λ raws. ok (record {
      refs = refs;
      names = names;
      custom = zip custom_refs items;
      by_ref = zip dataset_refs raws;
    })

unfoldable pub choose_random : Draws → List PoolRecord → RandomPick → Result Chosen
unfolding by_id_of sample
choose_random draws pool pick = sample draws pool pick >>= λ raws.
    assign_pseudonyms draws.name_draw (map (λ r. r.gender) raws) >>= λ names. ok (record {
      refs = map (λ r. show r.id) raws;
      names = names;
      custom = [];
      by_ref = by_id_of raws;
    })

unfoldable pub choose_students :
    Draws → List PoolRecord → List LibraryItem → ℕ → Selection → Result Chosen
unfolding choose_personas choose_random
choose_students draws pool library user_id (Selection.personas picks) =
    choose_personas pool library user_id picks
choose_students draws pool library user_id (Selection.random pick) = choose_random draws pool pick
