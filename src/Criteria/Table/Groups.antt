-- ===== src/Criteria/Table/Groups.antt =====
-- Counting rows, and the groups of rows with one stable id.
use elp_gemini.Base.{
  Text, text_eq, text_eq_iff, ℕ, ◌≤◌, ◌<◌, ◌≡◌, refl, sym, subst, ◌⊎◌, inl, inr, Bool, true, false,
  ◌&&◌, ◌||◌, Option, none, some, List, [], ◌∷◌, arith, ◌==◌, if◌then◌else◌, ==_refl, Bool-cases,
  opt_eq, filter, any, all, count,
}
use elp_gemini.Base.Dicts.{in_texts, opt_is, text_eq_trans}
use elp_gemini.Criteria.{Criteria}
use elp_gemini.Criteria.Table.{has_stable}
use elp_gemini.Criteria.Table.Sync.{min_id, is_min, least, in_survivors, kept_id}

-- The primary key: no two rows have one id.
abbrev pub UniqueIds : List Criteria → Type 0
UniqueIds rows = (i : ℕ) → count (λ r. r.id == i) rows ≤ 1

-- No two rows have one stable id.
abbrev pub UniqueStable : List Criteria → Type 0
UniqueStable rows = (k : Text) → count (has_stable k) rows ≤ 1

pub count-filter {ℓ} :
    {A : Type ℓ} (p q : A → Bool) (xs : List A) → count p (filter q xs) ≡ count (λ x. q x && p x) xs
count-filter p q [] = refl
count-filter p q (x ∷ xs) = ground (arith, count-filter p q xs)

pub count-filter_le {ℓ} :
    {A : Type ℓ} (p q : A → Bool) (xs : List A) → count p (filter q xs) ≤ count p xs
count-filter_le p q [] = omega arith
count-filter_le p q (x ∷ xs) = ground (arith, count-filter_le p q xs)

pub all-filter {ℓ} :
    {A : Type ℓ} (p q : A → Bool) (xs : List A) → all p xs ≡ true → all p (filter q xs) ≡ true
all-filter p q [] h = refl
all-filter p q (x ∷ xs) h = ground (arith, all-filter p q xs)

pub count-any {ℓ} : {A : Type ℓ} (p : A → Bool) (xs : List A) → any p xs ≡ true → 0 < count p xs
count-any p [] h = cc
count-any p (x ∷ xs) h = ground (arith, count-any p xs)

-- Two tests that hold at rows with one id hold at one row.
pub same_row :
    (p q : Criteria → Bool) (i : ℕ) (rows : List Criteria)
    → count (λ r. r.id == i) rows ≤ 1
    → any (λ r. p r && r.id == i) rows ≡ true
    → any (λ r. q r && r.id == i) rows ≡ true
    → any (λ r. p r && q r) rows ≡ true
same_row p q i [] u h k = h
same_row p q i (r ∷ rs) u h k =
    ground (arith, same_row p q i rs, count-any (λ r. r.id == i) rs, any_id p i rs, any_id q i rs)
  where
    any_id :
        (p : Criteria → Bool) (i : ℕ) (rs : List Criteria)
        → any (λ r. p r && r.id == i) rs ≡ true
        → any (λ r. r.id == i) rs ≡ true
    any_id p i [] h = h
    any_id p i (x ∷ xs) h = ground (arith, any_id p i xs)

pub any-none {ℓ} :
    {A : Type ℓ} (p : A → Bool) (xs : List A) → ((x : A) → p x ≡ false) → any p xs ≡ false
any-none p [] h = refl
any-none p (x ∷ xs) h = ground (arith, h x, any-none p xs h)

pub has_stable_two :
    (j k : Text) (r : Criteria) → text_eq j k ≡ false → (has_stable j r && has_stable k r) ≡ false
has_stable_two j k r h = both r.stable_id
  where
    both : (s : Option Text) → (opt_is s j && opt_is s k) ≡ false
    both none = refl
    both (some s) = ground (arith, text_eq_trans s j k, h)

-- The smallest id of a group is that of a row of the group.
pub min_id-any :
    (k : Text) (i : ℕ) (rows : List Criteria)
    → opt_eq (min_id k rows) (some i) ≡ true
    → any (λ r. has_stable k r && r.id == i) rows ≡ true
unfolding min_id
min_id-any k i [] h = ground arith
min_id-any k i (r ∷ rs) h = at (min_id k rs) (min_id-any k i rs) (h)
  where
    at :
        (m : Option ℕ)
        → (opt_eq m (some i) ≡ true → any (λ r. has_stable k r && r.id == i) rs ≡ true)
        → opt_eq (if has_stable k r then some (least r.id m) else m) (some i) ≡ true
        → any (λ r. has_stable k r && r.id == i) (r ∷ rs) ≡ true
    at none ih h = ground (arith, ih)
    at (some j) ih h = ground (arith, ih)

abbrev pub Within : Criteria → List Criteria → Type 0
Within r [] = ⊥
Within r (x ∷ xs) = (x ≡ r) ⊎ Within r xs

pub Within-any :
    (p : Criteria → Bool) (r : Criteria) (xs : List Criteria)
    → Within r xs
    → p r ≡ true
    → any p xs ≡ true
Within-any p r [] w h = absurd w
Within-any p r (x ∷ xs) (inl e) h = rw e (rw h refl)
Within-any p r (x ∷ xs) (inr w) h = ground (arith, Within-any p r xs w h)

pub Within-filter :
    (q : Criteria → Bool) (r : Criteria) (xs : List Criteria) → Within r (filter q xs) → q r ≡ true
Within-filter q r [] w = absurd w
Within-filter q r (x ∷ xs) w = cases (Bool-cases (q x)) (Within-filter q r xs)
  where
    first :
        (Within r (filter q xs) → q r ≡ true) → q x ≡ true → Within r (x ∷ filter q xs) → q r ≡ true
    first ih y (inl e) = rw (sym e) y
    first ih y (inr v) = ih v

    cases : (q x ≡ true) ⊎ (q x ≡ false) → (Within r (filter q xs) → q r ≡ true) → q r ≡ true
    cases (inl y) ih =
        first ih y (subst (λ b. Within r (if b then x ∷ filter q xs else filter q xs)) y w)
    cases (inr n) ih = ih (subst (λ b. Within r (if b then x ∷ filter q xs else filter q xs)) n w)

-- A test that implies another at every row counts no more rows.
pub count-le_on :
    (p q : Criteria → Bool) (xs : List Criteria)
    → ((r : Criteria) → Within r xs → p r ≡ true → q r ≡ true)
    → count p xs ≤ count q xs
count-le_on p q [] h = omega arith
count-le_on p q (x ∷ xs) h = ground (arith, h x (inl refl), count-le_on p q xs (λ r w. h r (inr w)))

pub any-le_on :
    (p q : Criteria → Bool) (xs : List Criteria)
    → ((r : Criteria) → Within r xs → p r ≡ true → q r ≡ true)
    → any p xs ≡ true
    → any q xs ≡ true
any-le_on p q [] h a = a
any-le_on p q (x ∷ xs) h a = ground (arith, h x (inl refl), any-le_on p q xs (λ r w. h r (inr w)))

-- A survivor has the smallest id of a group.
pub survivor-min :
    (keep : List Text) (rows rs : List Criteria) (i : ℕ)
    → in_survivors keep rows rs i ≡ true
    → (j : Text) × (opt_eq (min_id j rows) (some i) ≡ true)
unfolding in_survivors
survivor-min keep rows [] i h = cc
survivor-min keep rows (r ∷ rs) i h = at r.stable_id (survivor-min keep rows rs i) (h)
  where
    at :
        (s : Option Text)
        → (in_survivors keep rows rs i ≡ true
            → (j : Text) × (opt_eq (min_id j rows) (some i) ≡ true))
        → ((kept_id keep s && is_min rows i s) || in_survivors keep rows rs i) ≡ true
        → (j : Text) × (opt_eq (min_id j rows) (some i) ≡ true)
    at none ih h = ih h
    at (some k) ih h = elim (Bool-cases (opt_eq (min_id k rows) (some i))) [
      | inl y ↦ (k, y)
      | inr n ↦ ih (ground arith)
    ]

pub min-survivor :
    (keep : List Text) (rows rs : List Criteria) (i : ℕ) (k : Text)
    → in_texts k keep ≡ true
    → opt_eq (min_id k rows) (some i) ≡ true
    → any (has_stable k) rs ≡ true
    → in_survivors keep rows rs i ≡ true
unfolding in_survivors
min-survivor keep rows [] i k h m a = a
min-survivor keep rows (r ∷ rs) i k h m a = at r.stable_id (min-survivor keep rows rs i k h m) (a)
  where
    at :
        (s : Option Text)
        → (any (has_stable k) rs ≡ true → in_survivors keep rows rs i ≡ true)
        → (opt_is s k || any (has_stable k) rs) ≡ true
        → ((kept_id keep s && is_min rows i s) || in_survivors keep rows rs i) ≡ true
    at none ih a = ih a
    at (some s) ih a = elim (Bool-cases (text_eq s k)) [
      | inl y ↦ rw ((text_eq_iff s k).0 y) (rw (h, m) refl)
      | inr n ↦ ground (arith, ih (ground arith))
    ]

pub has_min :
    (k : Text) (rows : List Criteria)
    → any (has_stable k) rows ≡ true
    → (i : ℕ) × (opt_eq (min_id k rows) (some i) ≡ true)
unfolding min_id
has_min k [] h = cc
has_min k (r ∷ rs) h = elim (Bool-cases (has_stable k r)) [
  | inl y ↦ (least r.id (min_id k rs), rw y (==_refl _))
  | inr n ↦ rw n (has_min k rs (ground arith))
]
