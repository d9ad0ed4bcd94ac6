-- ===== src/Sim/Agreement.antt =====
-- app/services/simulation/agreement.py: whose agreement a scene has.
pub mod Laws
pub mod Shown
use elp_gemini.Base.{
  ℕ, Bool, true, false, ◌&&◌, ◌||◌, not, ◌==◌, leb, List, [], ◌∷◌, Option, none, some, length, elem,
  if◌then◌else◌,
}
use elp_gemini.Base.Texts.{truthy}
use elp_gemini.Sim.Model.{Reaction, Structured, Speaker, Utterance, Persona, is_student}

abbrev pub agree_threshold : ℕ
agree_threshold = 80

-- `_row_agrees` on the keys of a JSON object; a key that is missing reads as false.
unfoldable pub row_agrees : Structured → Bool
row_agrees (Structured.reaction s) = elim s.understanding [
  | some value ↦ leb agree_threshold value
  | none ↦ s.ready_for_next && not (truthy s.misconception)
]
row_agrees (Structured.source _) = false
row_agrees (Structured.event _) = false

-- `s.get("understanding")`
abbrev pub understanding_of : Structured → Option ℕ
understanding_of (Structured.reaction s) = s.understanding
understanding_of (Structured.source _) = none
understanding_of (Structured.event _) = none

-- The test of the loop: a student's row of this scene that could be read, with its two keys.
unfoldable pub valid_row : ℕ → Utterance → Option (Option ℕ × Structured)
valid_row phase_idx u =
    if u.phase_idx == phase_idx && is_student u.speaker_type
    then elim u.structured [ none ↦ none | some s ↦ some (u.persona_id, s) ]
    else none

-- `latest` (a dict from persona id) and `agreed_once` (a set), as the loop leaves them.
abbrev pub Latest : Type 0
Latest = List (Option ℕ × Structured)

abbrev same_key : Option ℕ → ℕ → Bool
same_key none k = false
same_key (some j) k = j == k

unfoldable pub get : Latest → ℕ → Option Structured
get [] k = none
get ((j, s) ∷ rest) k = if same_key j k then some s else get rest k

record Seen : Type 0 where
  latest : Latest
  agreed_once : List (Option ℕ)

-- The head of `latest` wins in `get`, so putting in front overwrites.
see : Seen → Option (Option ℕ × Structured) → Seen
unfolding row_agrees
see seen none = seen
see seen (some (p, s)) = record {
  latest = (p, s) ∷ seen.latest;
  agreed_once = if row_agrees s then p ∷ seen.agreed_once else seen.agreed_once;
}

scan : ℕ → List Utterance → Seen → Seen
unfolding see valid_row
scan phase_idx [] seen = seen
scan phase_idx (u ∷ us) seen = scan phase_idx us (see seen (valid_row phase_idx u))

has_key : ℕ → List (Option ℕ) → Bool
has_key k [] = false
has_key k (j ∷ js) = same_key j k || has_key k js

agreed_ids : List (Option ℕ) → List Persona → List ℕ
unfolding has_key
agreed_ids once [] = []
agreed_ids once (p ∷ ps) =
    let rest = agreed_ids once ps in if has_key p.id once then p.id ∷ rest else rest

understandings : Latest → List Persona → List (ℕ × Option ℕ)
unfolding get
understandings latest [] = []
understandings latest (p ∷ ps) =
    (p.id, elim (get latest p.id) [ none ↦ none | some s ↦ understanding_of s ])
    ∷ understandings latest ps

pub record Agreement : Type 0 where
  pub phase_idx : ℕ
  pub agreed_persona_ids : List ℕ
  pub understanding : List (ℕ × Option ℕ)
  pub count : ℕ
  pub total : ℕ
  pub all_agreed : Bool

unfoldable pub compute_agreement : ℕ → List Persona → List Utterance → Agreement
unfolding scan agreed_ids understandings
compute_agreement phase_idx personas utterances =
    let seen = scan phase_idx utterances (record { latest = []; agreed_once = [] }) in
    let agreed = agreed_ids seen.agreed_once personas in
    record {
      phase_idx = phase_idx;
      agreed_persona_ids = agreed;
      understanding = understandings seen.latest personas;
      count = length agreed;
      total = length personas;
      all_agreed = length agreed == length personas;
    }
