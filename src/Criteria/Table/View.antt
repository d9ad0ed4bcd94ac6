-- ===== src/Criteria/Table/View.antt =====
-- The table as a map from stable ids, under changes of single rows.
use elp_gemini.Base.{
  Text, text_eq, ℕ, ◌≡◌, refl, inl, inr, Bool, true, false, ◌&&◌, not, Option, none, some, List, [],
  ◌∷◌, arith, ◌==◌, ==_refl, Bool-cases, filter, any, find, count,
}
use mathlib.Core.Option
use elp_gemini.Criteria.{done, CriteriaStatus, Criteria}
use elp_gemini.Criteria.Table.{has_stable, update_row, scalar_one_or_none}
use elp_gemini.Criteria.Table.Groups.{has_stable_two}
use elp_gemini.Criteria.Table.Sync.{CloudRow, parsed, overwrite}

-- The columns of a row that the evaluation reads: the alias, the status and when it was activated.
pub record Shown : Type 0 where
  pub alias : Option Text
  pub status : CriteriaStatus
  pub activated_at : Option ℕ

abbrev pub shown : Criteria → Shown
shown r = record { alias = r.display_alias; status = r.status; activated_at = r.activated_at }

abbrev pub shown_item : (Text → Option ℕ) → CloudRow → Shown
shown_item parse item = record {
  alias = item.display_alias;
  status = item.status;
  activated_at = parsed parse item.activated_at;
}

-- The table as a partial map from stable ids.
unfoldable pub view : List Criteria → Text → Option Shown
view rows k = Option.map shown (find (has_stable k) rows)

-- What one lookup by the stable id tells of the rows.
pub found_one :
    (k : Text) (c : Criteria) (rows : List Criteria)
    → scalar_one_or_none (filter (has_stable k) rows) ≡ done (some c)
    → filter (has_stable k) rows ≡ c ∷ []
found_one k c rows h = at (filter (has_stable k) rows) h
  where
    at : (xs : List Criteria) → scalar_one_or_none xs ≡ done (some c) → xs ≡ c ∷ []
    at [] h = cc
    at (x ∷ []) h = cc
    at (x ∷ y ∷ xs) h = cc

pub found_none :
    (k : Text) (rows : List Criteria)
    → scalar_one_or_none (filter (has_stable k) rows) ≡ done none
    → filter (has_stable k) rows ≡ []
found_none k rows h = at (filter (has_stable k) rows) h
  where
    at : (xs : List Criteria) → scalar_one_or_none xs ≡ done none → xs ≡ []
    at [] h = refl
    at (x ∷ []) h = cc
    at (x ∷ y ∷ xs) h = cc

pub filter-find :
    (p : Criteria → Bool) (c : Criteria) (rows rest : List Criteria)
    → filter p rows ≡ c ∷ rest
    → (find p rows ≡ some c) × (p c ≡ true)
filter-find p c [] rest h = cc
filter-find p c (r ∷ rs) rest h = elim (Bool-cases (p r)) [
  | inl y ↦ (rw y (ground (arith, y, h)), ground (arith, y, h))
  | inr n ↦ rw n (filter-find p c rs rest (ground (arith, n, h)))
]

module _ (parse : Text → Option ℕ) (item : CloudRow) where
  pub find-update_self :
      (k : Text) (c : Criteria) (rows : List Criteria)
      → find (has_stable k) rows ≡ some c
      → find (has_stable k) (update_row c.id (overwrite parse item) rows)
        ≡ some (overwrite parse item c)
  unfolding update_row overwrite
  find-update_self k c [] h = cc
  find-update_self k c (r ∷ rs) h = elim (Bool-cases (has_stable k r)) [
    | inl y ↦ ground (arith, y, h, ==_refl c.id)
    | inr n ↦ ground (arith, n, h, find-update_self k c rs)
  ]

  -- Rows with another id or the same stable id are no obstacle.
  pub find-update_other :
      (i : ℕ) (s k : Text) (rows : List Criteria)
      → any (λ r. not (has_stable s r) && r.id == i) rows ≡ false
      → text_eq s k ≡ false
      → find (has_stable k) (update_row i (overwrite parse item) rows) ≡ find (has_stable k) rows
  unfolding update_row overwrite
  find-update_other i s k [] h e = refl
  find-update_other i s k (r ∷ rs) h e =
      ground (arith, has_stable_two s k r, find-update_other i s k rs)

  pub count-update :
      (i : ℕ) (k : Text) (rows : List Criteria)
      → count (has_stable k) (update_row i (overwrite parse item) rows) ≡ count (has_stable k) rows
  unfolding update_row overwrite
  count-update i k [] = refl
  count-update i k (r ∷ rs) = ground (arith, count-update i k rs)

  pub ids-update :
      (i j : ℕ) (rows : List Criteria)
      → count (λ r. r.id == j) (update_row i (overwrite parse item) rows)
        ≡ count (λ r. r.id == j) rows
  unfolding update_row overwrite
  ids-update i j [] = refl
  ids-update i j (r ∷ rs) = ground (arith, ids-update i j rs)
