-- ===== src/Admin/Deletion/Rows/Laws.antt =====
-- Bulk deletions.
use elp_gemini.Base.{
  ℕ, ◌≡◌, refl, sym, ap, ◌∙◌, ◌↔◌, ◌⊎◌, inl, inr, Bool, true, false, ◌||◌, not, List, [], ◌∷◌,
  arith, ◌==◌, if◌then◌else◌, ==_iff, Bool-cases, length, filter, any, elem,
}
use elp_gemini.Admin.Deletion.{AnalysisReport, Paths}
use elp_gemini.Admin.Deletion.Rows.{
  World, distinct_after, distinct_ids, bulk_delete_reports, purge_reports,
}

pub filter_twice {ℓ} :
    {A : Type ℓ} (p q : A → Bool) (xs : List A)
    → any (λ x. not (q x)) (filter p xs) ≡ false
    → filter (λ x. not (q x)) (filter (λ x. not (p x)) xs) ≡ filter (λ x. not (q x)) xs
filter_twice p q [] h = refl
filter_twice p q (x ∷ xs) h = ground (arith, filter_twice p q xs)

any-none-filter {ℓ} :
    {A : Type ℓ} (p q : A → Bool) (xs : List A)
    → ((x : A) → q x ≡ true → p x ≡ true)
    → any q (filter (λ x. not (p x)) xs) ≡ false
any-none-filter p q [] h = refl
any-none-filter p q (x ∷ xs) h = ground (arith, h x, any-none-filter p q xs h)

elem-distinct_after :
    (k : ℕ) (seen ks : List ℕ)
    → elem k ks ≡ true
    → elem k seen ≡ false
    → elem k (distinct_after seen ks) ≡ true
unfolding distinct_after
elem-distinct_after k seen [] h n = h
elem-distinct_after k seen (j ∷ ks) h n = elim (Bool-cases (k == j)) [
  | inl y ↦ same (==_iff k j) y (Bool-cases (elem j seen))
  | inr o ↦ rest o (Bool-cases (elem j seen)) (elem-distinct_after k (j ∷ seen) ks)
]
  where
    same :
        ((k == j) ≡ true) ↔ (k ≡ j)
        → (k == j) ≡ true
        → (elem j seen ≡ true) ⊎ (elem j seen ≡ false)
        → elem k
            (if elem j seen then distinct_after (j ∷ seen) ks else j ∷ distinct_after (j ∷ seen) ks)
          ≡ true
    same i y (inl s) = absurd (clash (sym s ∙ ap (λ x. elem x seen) (sym (i.0 y)) ∙ n))
      where
        clash : true ≡ false → ⊥
        clash e = cc
    same i y (inr s) = rw s (rw y refl)

    rest :
        (k == j) ≡ false
        → (elem j seen ≡ true) ⊎ (elem j seen ≡ false)
        → (elem k ks ≡ true
            → elem k (j ∷ seen) ≡ false
            → elem k (distinct_after (j ∷ seen) ks) ≡ true)
        → elem k
            (if elem j seen then distinct_after (j ∷ seen) ks else j ∷ distinct_after (j ∷ seen) ks)
          ≡ true
    rest o (inl s) ih = rw s (ih (ground (arith, h, o)) (ground (arith, n, o)))
    rest o (inr s) ih = rw s (ground (arith, o, ih (ground (arith, h, o)) (ground (arith, n, o))))

elem-distinct_ids : (k : ℕ) (ks : List ℕ) → elem k ks ≡ true → elem k (distinct_ids ks) ≡ true
unfolding distinct_ids
elem-distinct_ids k ks h = elem-distinct_after k [] ks h refl

-- The same for reports.
pub bulk_delete_reports-owned :
    (paths : Paths) (user_id : ℕ) (ids : List ℕ) (world : World)
    → (filter
          (λ r. not (r.user_id == user_id))
          (bulk_delete_reports paths user_id ids world).0.tables.reports
        ≡ filter (λ r. not (r.user_id == user_id)) world.tables.reports)
      × (((bulk_delete_reports paths user_id ids world).0 ≡ world)
          ⊎ (any (λ r. elem r.id ids) (bulk_delete_reports paths user_id ids world).0.tables.reports
              ≡ false))
unfolding bulk_delete_reports purge_reports
bulk_delete_reports-owned paths user_id [] world = (refl, inl refl)
bulk_delete_reports-owned paths user_id (k ∷ ks) world =
    let ids = distinct_ids (k ∷ ks) in
    let reports = filter (λ (r : AnalysisReport). elem r.id ids) world.tables.reports in
    elim (Bool-cases (
      not (length reports == length ids)
      || any (λ (r : AnalysisReport). not (r.user_id == user_id)) reports)) [
        | inl y ↦ (rw y refl, inl (rw y refl))
        | inr n ↦ (
          rw n (
              filter_twice (λ r. elem r.id ids) (λ r. r.user_id == user_id) world.tables.reports
                (ground (arith, n))),
          inr (
              rw n (
                any-none-filter (λ r. elem r.id ids) (λ r. elem r.id (k ∷ ks)) world.tables.reports
                  (λ r h. elem-distinct_ids r.id (k ∷ ks) h))),
        )
      ]
