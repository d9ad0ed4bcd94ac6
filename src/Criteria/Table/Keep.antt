-- ===== src/Criteria/Table/Keep.antt =====
-- What `delete_by_stable_ids_except` leaves in the table.
use elp_gemini.Base.{
  Text, text_eq, text_eq_iff, ℕ, ◌≤◌, ◌<◌, ◌≡◌, refl, sym, ◌∙◌, inl, inr, Bool, true, false, ◌&&◌,
  not, Option, none, some, List, [], ◌∷◌, arith, ◌==◌, if◌then◌else◌, ==_iff, ==_refl, Bool-cases,
  is_some, opt_eq, filter, any, all, count, any-filter,
}
use elp_gemini.Base.Dicts.{in_texts, opt_is}
use elp_gemini.Criteria.{Criteria}
use elp_gemini.Criteria.Table.{has_stable}
use elp_gemini.Criteria.Table.Groups.{
  all-filter, Within, Within-any, Within-filter, count-le_on, any-le_on, survivor-min, min-survivor,
  has_min, count-filter, count-filter_le, count-any, any-none, has_stable_two, min_id-any,
  UniqueIds, UniqueStable, same_row,
}
use elp_gemini.Criteria.Table.Sync.{
  min_id, in_survivors, kept_id, unkept_id, delete_others, delete_by_stable_ids_except,
}

-- The rows that the first two deletions leave.
abbrev wanted : List Text → List Criteria → List Criteria
wanted keep rows =
    filter (λ r. not (unkept_id keep r.stable_id)) (filter (λ r. is_some r.stable_id) rows)

wanted-UniqueIds :
    (keep : List Text) (rows : List Criteria) → UniqueIds rows → UniqueIds (wanted keep rows)
wanted-UniqueIds keep rows u i = omega (
  arith,
  count-filter_le (λ r. r.id == i) (λ r. not (unkept_id keep r.stable_id))
      (filter (λ r. is_some r.stable_id) rows),
  count-filter_le (λ r. r.id == i) (λ r. is_some r.stable_id) rows,
  u i,
)

-- One id is the smallest of one group alone.
one_group :
    (j k : Text) (i : ℕ) (rows : List Criteria)
    → count (λ r. r.id == i) rows ≤ 1
    → opt_eq (min_id j rows) (some i) ≡ true
    → any (λ r. has_stable k r && r.id == i) rows ≡ true
    → opt_eq (min_id k rows) (some i) ≡ true
one_group j k i rows u m a = elim (Bool-cases (text_eq j k)) [
  | inl y ↦ rw (sym ((text_eq_iff j k).0 y)) m
  | inr n ↦ absurd (
      clash (
        sym (same_row (has_stable j) (has_stable k) i rows u (min_id-any j i rows m) a)
        ∙ any-none _ rows (λ r. has_stable_two j k r n)))
]
  where
    clash : true ≡ false → ⊥
    clash h = cc

count-min :
    (m : Option ℕ) (rows : List Criteria)
    → UniqueIds rows
    → count (λ r. opt_eq m (some r.id)) rows ≤ 1
count-min none rows u = omega (arith, none_at rows)
  where
    none_at : (rs : List Criteria) → count (λ r. opt_eq none (some r.id)) rs ≡ 0
    none_at [] = refl
    none_at (r ∷ rs) = omega (arith, none_at rs)
count-min (some i) rows u = omega (arith, flipped rows, u i)
  where
    flipped : (rs : List Criteria) → count (λ r. i == r.id) rs ≡ count (λ r. r.id == i) rs
    flipped [] = refl
    flipped (r ∷ rs) = ground (arith, flipped rs)

kept_of :
    (keep : List Text) (s : Option Text) (k : Text)
    → not (unkept_id keep s) ≡ true
    → opt_is s k ≡ true
    → in_texts k keep ≡ true
kept_of keep none k h e = cc
kept_of keep (some s) k h e = rw (sym ((text_eq_iff s k).0 e)) (ground arith)

kept_id_of :
    (keep : List Text) (s : Option Text) (k : Text)
    → not (unkept_id keep s) ≡ true
    → opt_is s k ≡ true
    → kept_id keep s ≡ true
kept_id_of keep none k h e = cc
kept_id_of keep (some s) k h e = ground arith

module _ (keep : List Text) (rows : List Criteria) (u : UniqueIds rows) (k : Text) where
  survives : Criteria → Bool
  survives r = not (
      kept_id keep r.stable_id
      && not (in_survivors keep (wanted keep rows) (wanted keep rows) r.id))

  -- A survivor with a stable id has the smallest id of those rows.
  survivor_at :
      (r : Criteria)
      → Within r (wanted keep rows)
      → (survives r && has_stable k r) ≡ true
      → opt_eq (min_id k (wanted keep rows)) (some r.id) ≡ true
  unfolding survives
  survivor_at r w h =
      let live : in_survivors keep (wanted keep rows) (wanted keep rows) r.id ≡ true = ground (
        arith,
        kept_id_of keep r.stable_id k (Within-filter (λ x. not (unkept_id keep x.stable_id)) r _ w),
      ) in
      let g = survivor-min keep (wanted keep rows) (wanted keep rows) r.id live in
      one_group g.0 k r.id (wanted keep rows) (wanted-UniqueIds keep rows u r.id) g.1 (
        Within-any (λ x. has_stable k x && x.id == r.id) r (wanted keep rows) w
          (ground (arith, ==_refl r.id)))

  others-le : count (has_stable k) (delete_others keep rows) ≤ 1
  unfolding delete_others survives
  others-le = omega (
    arith,
    count-filter (has_stable k) survives (wanted keep rows),
    count-le_on (λ r. survives r && has_stable k r)
        (λ r. opt_eq (min_id k (wanted keep rows)) (some r.id)) (wanted keep rows) survivor_at,
    count-min (min_id k (wanted keep rows)) (wanted keep rows) (wanted-UniqueIds keep rows u),
  )

  named_of :
      (s : Option Text)
      → in_texts k keep ≡ true
      → opt_is s k ≡ true
      → (is_some s && not (unkept_id keep s)) ≡ true
  named_of none h e = cc
  named_of (some s) h e = rw ((text_eq_iff s k).0 e) (rw h refl)

  any-wanted :
      in_texts k keep ≡ true
      → any (has_stable k) rows ≡ true
      → any (has_stable k) (wanted keep rows) ≡ true
  any-wanted h a =
      any-filter (has_stable k) (λ r. not (unkept_id keep r.stable_id))
        (filter (λ r. is_some r.stable_id) rows)
      ∙ any-filter (λ r. not (unkept_id keep r.stable_id) && has_stable k r)
          (λ r. is_some r.stable_id) rows
      ∙ any-le_on (has_stable k)
          (λ r. is_some r.stable_id && (not (unkept_id keep r.stable_id) && has_stable k r)) rows
          (λ r w e. ground (arith, named_of r.stable_id h e)) a

  others-pos :
      in_texts k keep ≡ true
      → any (has_stable k) rows ≡ true
      → 0 < count (has_stable k) (delete_others keep rows)
  unfolding delete_others survives
  others-pos h a =
      let some_row = any-wanted h a in
      let g = has_min k (wanted keep rows) some_row in
      let live : (r : Criteria)
          → Within r (wanted keep rows)
          → (has_stable k r && r.id == g.0) ≡ true
          → (survives r && has_stable k r) ≡ true =
        λ r w e. ground (
          arith,
          min-survivor keep (wanted keep rows) (wanted keep rows) g.0 k h g.1 some_row,
          ==_iff r.id g.0,
        ) in
      omega (
        arith,
        count-filter (has_stable k) survives (wanted keep rows),
        count-any (λ r. survives r && has_stable k r) (wanted keep rows)
            (any-le_on (λ r. has_stable k r && r.id == g.0) (λ r. survives r && has_stable k r)
              (wanted keep rows) live (min_id-any k g.0 (wanted keep rows) g.1)),
      )

  others-unkept : in_texts k keep ≡ false → count (has_stable k) (delete_others keep rows) ≡ 0
  unfolding delete_others survives
  others-unkept h = omega (
    arith,
    count-filter (has_stable k) survives (wanted keep rows),
    count-le_on (λ r. survives r && has_stable k r) (λ r. false) (wanted keep rows)
        (λ r w e. ground (
          arith,
          kept_of keep r.stable_id k (Within-filter (λ x. not (unkept_id keep x.stable_id)) r _ w),
        )),
    count_none (wanted keep rows),
  )
    where
      count_none : (rs : List Criteria) → count (λ (r : Criteria). false) rs ≡ 0
      count_none [] = refl
      count_none (r ∷ rs) = omega (arith, count_none rs)

  others-absent :
      any (has_stable k) rows ≡ false → count (has_stable k) (delete_others keep rows) ≡ 0
  unfolding delete_others survives
  others-absent h = omega (
    arith,
    count-filter_le (has_stable k) survives (wanted keep rows),
    count-filter_le (has_stable k) (λ r. not (unkept_id keep r.stable_id))
        (filter (λ r. is_some r.stable_id) rows),
    count-filter_le (has_stable k) (λ r. is_some r.stable_id) rows,
    not_any rows h,
  )
    where
      not_any : (rs : List Criteria) → any (has_stable k) rs ≡ false → count (has_stable k) rs ≡ 0
      not_any [] h = refl
      not_any (r ∷ rs) h = ground (arith, not_any rs)

  others-UniqueIds : UniqueIds (delete_others keep rows)
  unfolding delete_others survives
  others-UniqueIds i = omega (
    arith,
    count-filter_le (λ r. r.id == i) survives (wanted keep rows),
    wanted-UniqueIds keep rows u i,
  )

  others-all : (p : Criteria → Bool) → all p rows ≡ true → all p (delete_others keep rows) ≡ true
  unfolding delete_others survives
  others-all p h = all-filter p survives (wanted keep rows) (
      all-filter p (λ r. not (unkept_id keep r.stable_id)) (filter (λ r. is_some r.stable_id) rows)
        (all-filter p (λ r. is_some r.stable_id) rows h))

-- Of the rows with one stable id exactly one is left if the id is to be kept and has a row, and none
-- otherwise.
pub count-delete_by_stable_ids_except :
    (keep : List Text) (rows : List Criteria)
    → UniqueIds rows
    → (k : Text)
    → count (has_stable k) (delete_by_stable_ids_except keep rows).0
      ≡ (if in_texts k keep && any (has_stable k) rows then 1 else 0)
unfolding delete_by_stable_ids_except
count-delete_by_stable_ids_except [] rows u k = refl
count-delete_by_stable_ids_except (j ∷ keep) rows u k = ground (
  arith,
  others-le (j ∷ keep) rows u k,
  others-pos (j ∷ keep) rows u k,
  others-unkept (j ∷ keep) rows u k,
  others-absent (j ∷ keep) rows u k,
)

pub delete_by_stable_ids_except-UniqueStable :
    (keep : List Text) (rows : List Criteria)
    → UniqueIds rows
    → UniqueStable (delete_by_stable_ids_except keep rows).0
delete_by_stable_ids_except-UniqueStable keep rows u k =
    ground (arith, count-delete_by_stable_ids_except keep rows u k)

pub delete_by_stable_ids_except-UniqueIds :
    (keep : List Text) (rows : List Criteria)
    → UniqueIds rows
    → UniqueIds (delete_by_stable_ids_except keep rows).0
unfolding delete_by_stable_ids_except delete_others
delete_by_stable_ids_except-UniqueIds [] rows u i = omega arith
delete_by_stable_ids_except-UniqueIds (j ∷ keep) rows u i = others-UniqueIds (j ∷ keep) rows u [] i

pub delete_by_stable_ids_except-all :
    (keep : List Text) (rows : List Criteria)
    → UniqueIds rows
    → (p : Criteria → Bool) → all p rows ≡ true
    → all p (delete_by_stable_ids_except keep rows).0 ≡ true
unfolding delete_by_stable_ids_except
delete_by_stable_ids_except-all [] rows u p h = refl
delete_by_stable_ids_except-all (j ∷ keep) rows u p h = others-all (j ∷ keep) rows u [] p h
