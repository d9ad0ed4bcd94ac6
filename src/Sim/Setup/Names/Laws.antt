-- ===== src/Sim/Setup/Names/Laws.antt =====
-- The names that `assign_pseudonyms` of app/services/simulation/persona_pool.py gives.
use elp_gemini.Base.{
  some_inj, Text, text_eq, text_eq_iff, ℕ, zero, suc, ◌+◌, ◌≡◌, refl, sym, subst, inl, inr, Bool,
  true, false, ◌&&◌, not, Option, none, some, List, [], ◌∷◌, ◌++◌, arith, Bool-cases, length,
  get_elem?, filter, length-append,
}
use elp_gemini.Sim.Errors.{Result, ok, ok_inj}
use elp_gemini.Sim.Setup.Names.{
  free_names, choice, with_name, assign_from, assign_pseudonyms, is_used, pool_of,
}

abbrev pub is_distinct : List Text → Bool
is_distinct [] = true
is_distinct (x ∷ xs) = not (is_used xs x) && is_distinct xs

text_eq-sym : (a b : Text) → text_eq a b ≡ true → text_eq b a ≡ true
text_eq-sym a b h = (text_eq_iff b a).1 (sym ((text_eq_iff a b).0 h))

text_eq-swap : (a b : Text) → text_eq b a ≡ false → text_eq a b ≡ false
text_eq-swap a b h = elim (Bool-cases (text_eq a b)) [
  | inl y ↦ ground (arith, text_eq-sym a b y)
  | inr n ↦ n
]

used-snoc :
    (x n : Text) (xs : List Text)
    → is_used xs x ≡ false
    → text_eq x n ≡ false
    → is_used (xs ++ n ∷ []) x ≡ false
used-snoc x n [] h d = ground arith
used-snoc x n (y ∷ ys) h d = ground (arith, used-snoc x n ys)

distinct-snoc :
    (n : Text) (xs : List Text)
    → is_distinct xs ≡ true
    → is_used xs n ≡ false
    → is_distinct (xs ++ n ∷ []) ≡ true
distinct-snoc n [] h d = ground arith
distinct-snoc n (x ∷ xs) h d =
    ground (arith, distinct-snoc n xs, used-snoc x n xs, text_eq-swap x n)

filter-passes :
    (p : Text → Bool) (xs : List Text) (i : ℕ) (n : Text)
    → get_elem? (filter p xs) i ≡ some n
    → p n ≡ true
filter-passes p [] i n h = cc
filter-passes p (x ∷ xs) zero n h = elim (Bool-cases (p x)) [
  | inl y ↦ subst (λ z. p z ≡ true) (some_inj (rw y at h)) y
  | inr b ↦ filter-passes p xs zero n (rw b at h)
]
filter-passes p (x ∷ xs) (suc i) n h = elim (Bool-cases (p x)) [
  | inl y ↦ filter-passes p xs i n (rw y at h)
  | inr b ↦ filter-passes p xs (suc i) n (rw b at h)
]

free_names-unused :
    (draw : ℕ → ℕ → ℕ) (k : ℕ) (gender : Option Text) (names : List Text) (n : Text)
    → choice draw k (free_names gender names) ≡ some n
    → is_used names n ≡ false
unfolding choice free_names
free_names-unused draw k gender names n h = ground (
  arith,
  filter-passes (λ m. not (is_used names m)) (pool_of gender)
      (draw k (length (filter (λ m. not (is_used names m)) (pool_of gender)))) n h,
)

with_name-ok :
    (o : Option Text) (names : List Text) (rest : List Text → Result (List Text)) (out : List Text)
    → with_name o names rest ≡ ok out
    → (n : Text) × (o ≡ some n) × (rest (names ++ n ∷ []) ≡ ok out)
unfolding with_name
with_name-ok none names rest out h = cc
with_name-ok (some n) names rest out h = (n, refl, h)

assign_from-distinct :
    (draw : ℕ → ℕ → ℕ) (k : ℕ) (names : List Text) (genders : List (Option Text)) (out : List Text)
    → is_distinct names ≡ true
    → assign_from draw k names genders ≡ ok out
    → (is_distinct out ≡ true) × (length out ≡ length names + length genders)
unfolding assign_from
assign_from-distinct draw k names [] out d h = rw (sym (ok_inj h)) (d, omega arith)
assign_from-distinct draw k names (gender ∷ genders) out d h =
    let w =
      with_name-ok (choice draw k (free_names gender names)) names
        (λ more. assign_from draw (k + 1) more genders) out h in
    let unused = free_names-unused draw k gender names w.0 w.1 in
    let rest =
      assign_from-distinct draw (k + 1) (names ++ w.0 ∷ []) genders out
        (distinct-snoc w.0 names d unused) w.2 in
    (rest.0, omega (arith, rest.1, length-append names (w.0 ∷ [])))

-- Whatever the generator draws, the pseudonyms of a session differ from each other, and there is one
-- for each student.
pub pseudonyms_differ :
    (draw : ℕ → ℕ → ℕ) (genders : List (Option Text)) (out : List Text)
    → assign_pseudonyms draw genders ≡ ok out
    → (is_distinct out ≡ true) × (length out ≡ length genders)
unfolding assign_pseudonyms
pseudonyms_differ draw genders out h =
    let a = assign_from-distinct draw 0 [] genders out refl h in (a.0, omega (arith, a.1))
