-- ===== src/Sim/Guidelines/Versions.antt =====
-- The versions of guidelines.
use elp_gemini.Base.{
  ℕ, ◌+◌, ◌≤◌, ◌<◌, ◌≡◌, refl, ap, ◌⊎◌, inl, inr, Bool, true, false, some, List, [], ◌∷◌, ◌++◌,
  arith, leb, ◌==◌, Bool-cases, some_inj, any, count, count-append,
}
use elp_gemini.Sim.Errors.{ok}
use elp_gemini.Sim.Guidelines.{
  Guideline, insert_version, history, first_row, current, max_version, next_guideline_id, save,
}

-- No two rows have one version.
abbrev pub UniqueVersions : List Guideline → Type 0
UniqueVersions rows = (v : ℕ) → count (λ g. g.version == v) rows ≤ 1

count-none {ℓ} : {A : Type ℓ} (p : A → Bool) (xs : List A) → any p xs ≡ false → count p xs ≡ 0
count-none p [] h = refl
count-none p (x ∷ xs) h = ground (arith, count-none p xs)

max_version-free :
    (n : ℕ) (rows : List Guideline) → max_version rows < n → any (λ g. g.version == n) rows ≡ false
unfolding max_version
max_version-free n [] h = refl
max_version-free n (g ∷ gs) h = ground (arith, max_version-free n gs)

history-snoc :
    (r : Guideline) (rows : List Guideline)
    → max_version rows < r.version
    → first_row (history (rows ++ r ∷ [])) ≡ some r
unfolding history max_version insert_version
history-snoc r [] h = refl
history-snoc r (g ∷ gs) h = at (history (gs ++ r ∷ [])) (history-snoc r gs (omega arith))
  where
    at : (hs : List Guideline) → first_row hs ≡ some r → first_row (insert_version g hs) ≡ some r
    at [] e = cc
    at (x ∷ xs) e =
        let same : x.version ≡ r.version = ap Guideline.version (some_inj e) in
        let later : leb x.version g.version ≡ false = ground (arith, same, h) in rw later e

-- With no other save in between, a save goes through and is the current guideline; a save keeps the
-- versions distinct whatever was saved in between, and one that is refused changes nothing.
pub save-current :
    (now admin : ℕ) (g : Guideline) (rows committed : List Guideline)
    → UniqueVersions committed
    → ((row : Guideline) × ((save now admin g rows rows).0 ≡ ok row)
        × (current (save now admin g rows rows).1 ≡ some row))
      × UniqueVersions (save now admin g rows committed).1
      × (((save now admin g rows committed).1 ≡ committed)
          ⊎ ((row : Guideline) × ((save now admin g rows committed).0 ≡ ok row)))
unfolding save current
save-current now admin g rows committed u = (
  (new rows, rw free refl, rw free (history-snoc (new rows) rows (omega arith))),
  unique (Bool-cases (any (λ h. h.version == max_version rows + 1) committed)),
  outcome (Bool-cases (any (λ h. h.version == max_version rows + 1) committed)),
)
  where
    new : List Guideline → Guideline
    new there = record g {
      id = next_guideline_id there;
      version = max_version rows + 1;
      created_by = some admin;
      created_at = now;
    }

    free : any (λ h. h.version == max_version rows + 1) rows ≡ false
    free = max_version-free (max_version rows + 1) rows (omega arith)

    unique :
        (any (λ h. h.version == max_version rows + 1) committed ≡ true)
          ⊎ (any (λ h. h.version == max_version rows + 1) committed ≡ false)
        → UniqueVersions (save now admin g rows committed).1
    unique (inl y) v = rw y (u v)
    unique (inr n) v = rw n (
        ground (
          arith,
          count-append (λ h. h.version == v) committed (new committed ∷ []),
          u v,
          n,
          λ (e : v ≡ max_version rows + 1).
              ap (λ (k : ℕ). count (λ (h : Guideline). h.version == k) committed) e,
          count-none (λ h. h.version == max_version rows + 1) committed n,
        ))

    outcome :
        (any (λ h. h.version == max_version rows + 1) committed ≡ true)
          ⊎ (any (λ h. h.version == max_version rows + 1) committed ≡ false)
        → ((save now admin g rows committed).1 ≡ committed)
          ⊎ ((row : Guideline) × ((save now admin g rows committed).0 ≡ ok row))
    outcome (inl y) = inl (rw y refl)
    outcome (inr n) = inr (new committed, rw n refl)
