-- ===== src/Sim/Agreement/Laws.antt =====
-- What `compute_agreement` of app/services/simulation/agreement.py decides.
use elp_gemini.Sim.Agreement.{Persona, compute_agreement}
use elp_gemini.Base.{
  ℕ, ◌≡◌, refl, Bool, true, false, ◌&&◌, ◌||◌, Option, none, some, List, [], ◌∷◌, ◌++◌, map, arith,
  ◌==◌, length, filter, any, all, order_by, any-append, any-order_by, length-filter_le, length-map,
}
use mathlib.Core.Path.{fun_ext}
use elp_gemini.Sim.Model.{Utterance}
use elp_gemini.Sim.Agreement

-- Some readable reaction of student `k` in the scene meets the condition.
abbrev pub row_counts : ℕ → ℕ → Utterance → Bool
row_counts phase_idx k u = elim (Agreement.valid_row phase_idx u) [
  | none ↦ false
  | some ps ↦ Agreement.same_key ps.0 k && Agreement.row_agrees ps.1
]

abbrev pub ever_agreed : ℕ → ℕ → List Utterance → Bool
ever_agreed phase_idx k = any (row_counts phase_idx k)

has_key-scan :
    (phase_idx k : ℕ) (us : List Utterance) (seen : Agreement.Seen)
    → Agreement.has_key k (Agreement.scan phase_idx us seen).agreed_once
      ≡ (Agreement.has_key k seen.agreed_once || ever_agreed phase_idx k us)
unfolding Agreement.scan Agreement.has_key
has_key-scan phase_idx k [] seen = ground arith
has_key-scan phase_idx k (u ∷ us) seen =
    ground
      (arith, has_key-scan phase_idx k us (Agreement.see seen (Agreement.valid_row phase_idx u)))

agreed_ids-eq-filter :
    (phase_idx : ℕ) (us : List Utterance) (once : List (Option ℕ)) (ps : List Persona)
    → ((k : ℕ) → Agreement.has_key k once ≡ ever_agreed phase_idx k us)
    → Agreement.agreed_ids once ps
      ≡ map (λ p. p.id) (filter (λ p. ever_agreed phase_idx p.id us) ps)
unfolding Agreement.agreed_ids
agreed_ids-eq-filter phase_idx us once [] h = refl
agreed_ids-eq-filter phase_idx us once (p ∷ ps) h =
    ground (arith, h p.id, agreed_ids-eq-filter phase_idx us once ps h)

length-filter-eq {ℓ} :
    {A : Type ℓ} (p : A → Bool) (xs : List A) → (length (filter p xs) == length xs) ≡ all p xs
length-filter-eq p [] = ground arith
length-filter-eq p (x ∷ xs) = ground (arith, length-filter-eq p xs, length-filter_le p xs)

-- The agreed students are those of whom some readable reaction in the scene meets the condition,
-- in the order of their seats.
pub agreed-eq-filter :
    (phase_idx : ℕ) (ps : List Persona) (us : List Utterance)
    → (compute_agreement phase_idx ps us).agreed_persona_ids
      ≡ map (λ p. p.id) (filter (λ p. ever_agreed phase_idx p.id us) ps)
unfolding compute_agreement
agreed-eq-filter phase_idx ps us =
    agreed_ids-eq-filter phase_idx us
      (Agreement.scan phase_idx us (record { latest = []; agreed_once = [] })).agreed_once ps
      (λ k. has_key-scan phase_idx k us (record { latest = []; agreed_once = [] }))

pub all_agreed-eq-all :
    (phase_idx : ℕ) (ps : List Persona) (us : List Utterance)
    → (compute_agreement phase_idx ps us).all_agreed ≡ all (λ p. ever_agreed phase_idx p.id us) ps
unfolding compute_agreement
all_agreed-eq-all phase_idx ps us =
    rw (agreed-eq-filter phase_idx ps us)
      (rw length-map (length-filter-eq (λ (p : Persona). ever_agreed phase_idx p.id us) ps))

all_mono :
    {A : Type 0} (p q : A → Bool) (xs : List A)
    → ((x : A) → p x ≡ true → q x ≡ true)
    → all p xs ≡ true
    → all q xs ≡ true
all_mono p q [] h e = refl
all_mono p q (x ∷ xs) h e = ground (arith, h x, all_mono p q xs h)

-- One more batch of rows never takes an agreement back.
pub all_agreed-append :
    (phase_idx : ℕ) (ps : List Persona) (us more : List Utterance)
    → (compute_agreement phase_idx ps us).all_agreed ≡ true
    → (compute_agreement phase_idx ps (us ++ more)).all_agreed ≡ true
all_agreed-append phase_idx ps us more h = rw all_agreed-eq-all (
    all_mono (λ p. ever_agreed phase_idx p.id us) (λ p. ever_agreed phase_idx p.id (us ++ more)) ps
      (λ p e. ground (arith, any-append (row_counts phase_idx p.id) us more))
      (rw all_agreed-eq-all at h))

-- The order in which the rows are read does not matter to the agreement.
pub all_agreed-order_by :
    (phase_idx : ℕ) (ps : List Persona) (key : Utterance → ℕ) (us : List Utterance)
    → (compute_agreement phase_idx ps (order_by key us)).all_agreed
      ≡ all (λ p. ever_agreed phase_idx p.id us) ps
all_agreed-order_by phase_idx ps key us =
    rw all_agreed-eq-all
      (rw (fun_ext (λ (p : Persona). any-order_by (row_counts phase_idx p.id) key us)))
