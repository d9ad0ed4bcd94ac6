-- ===== src/Sim/Agreement/Shown.antt =====
-- The understanding in the result of `compute_agreement`, and `_previous_understanding` of
-- app/services/simulation/session_service.py.
use elp_gemini.Base.{
  ℕ, ◌≡◌, refl, ◌∙◌, inl, inr, true, Option, none, some, List, [], ◌∷◌, map, arith, ◌==◌,
  if◌then◌else◌, Option-cases, opt_eq, all,
}
use elp_gemini.Sim.Model.{Utterance, Persona, Structured}
use elp_gemini.Sim.Prompt
use elp_gemini.Sim.Prompt.{readable, last_valid, previous_understanding}
use elp_gemini.Sim.Agreement

abbrev else_get : Option Structured → Option Structured → Option Structured
else_get none o = o
else_get (some s) o = some s

else_get-none : (o : Option Structured) → else_get o none ≡ o
else_get-none none = refl
else_get-none (some s) = refl

same_key-opt_eq : (o : Option ℕ) (k : ℕ) → Agreement.same_key o k ≡ opt_eq o (some k)
same_key-opt_eq none k = refl
same_key-opt_eq (some j) k = refl

shown_value :
    (o : Option Structured)
    → elim o [ none ↦ none | some s ↦ Agreement.understanding_of s ] ≡ Prompt.understanding_of o
shown_value none = refl
shown_value (some (Structured.reaction r)) = refl
shown_value (some (Structured.source o)) = refl
shown_value (some (Structured.event e)) = refl

see-get :
    (idx k : ℕ) (u : Utterance) (seen : Agreement.Seen)
    → (u.phase_idx == idx) ≡ true
    → Agreement.get (Agreement.see seen (Agreement.valid_row idx u)).latest k
      ≡ else_get
          (if opt_eq u.persona_id (some k) then readable u else none)
          (Agreement.get seen.latest k)
unfolding Agreement.get Agreement.see Agreement.valid_row
see-get idx k u seen h = elim (Option-cases u.structured) [
  | inl n ↦ ground (arith, n)
  | inr (s, y) ↦ ground (arith, y, same_key-opt_eq u.persona_id k)
]

get-scan :
    (idx k : ℕ) (us : List Utterance) (seen : Agreement.Seen)
    → all (λ u. u.phase_idx == idx) us ≡ true
    → Agreement.get (Agreement.scan idx us seen).latest k
      ≡ else_get (last_valid us k) (Agreement.get seen.latest k)
unfolding Agreement.scan last_valid
get-scan idx k [] seen h = refl
get-scan idx k (u ∷ us) seen h = ground (
  arith,
  get-scan idx k us (Agreement.see seen (Agreement.valid_row idx u)),
  see-get idx k u seen,
)

understandings-previous :
    (us : List Utterance) (latest : Agreement.Latest) (ps : List Persona)
    → ((k : ℕ) → Agreement.get latest k ≡ last_valid us k)
    → Agreement.understandings latest ps ≡ map (λ p. (p.id, previous_understanding us p.id)) ps
unfolding Agreement.understandings previous_understanding
understandings-previous us latest [] h = refl
understandings-previous us latest (p ∷ ps) h =
    ground (arith, h p.id, shown_value (last_valid us p.id), understandings-previous us latest ps h)

-- Over the rows of one scene, what the agreement shows of a student's understanding is what
-- `_previous_understanding` gives for that student: the value that the next reaction is compared with.
pub shown_is_previous :
    (idx : ℕ) (ps : List Persona) (us : List Utterance)
    → all (λ u. u.phase_idx == idx) us ≡ true
    → (Agreement.compute_agreement idx ps us).understanding
      ≡ map (λ p. (p.id, previous_understanding us p.id)) ps
unfolding Agreement.compute_agreement Agreement.get
shown_is_previous idx ps us h =
    understandings-previous us
      (Agreement.scan idx us (record { latest = []; agreed_once = [] })).latest ps
      (λ k.
        get-scan idx k us (record { latest = []; agreed_once = [] }) h
        ∙ else_get-none (last_valid us k))
