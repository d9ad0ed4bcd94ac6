-- ===== src/Sim/Prompt.antt =====
-- The texts that app/services/simulation/session_service.py sends to the model: `student_call`,
-- the transcript lines and what they read from earlier rows.
use elp_gemini.Base.{
  Text, codes, text_eq, ℕ, ◌+◌, Bool, false, ◌&&◌, not, Option, none, some, List, [], ◌∷◌, ◌++◌,
  map, ltb, ◌==◌, if◌then◌else◌, is_some, opt_eq, get_elem?, elem,
}
use elp_gemini.Base.Json
use elp_gemini.Base.Json.{Json, Fields, or_null}
use elp_gemini.Base.Texts.{truthy, join, show}
use elp_gemini.Sim.Errors.{Code, Result, ok, ◌>>=◌, or_raise, map_result}
use elp_gemini.Sim.Gemini.{Call}
use elp_gemini.Sim.Model.{Structured, Speaker, Utterance, Persona, Phase, Source, is_student}
use elp_gemini.Sim.Reaction.{TextTools}

-- `u.speaker_type == "student" and u.structured is not None`, with the reaction.
abbrev pub readable : Utterance → Option Structured
readable u = if is_student u.speaker_type then u.structured else none

-- `_last_valid`: `reversed` finds the last one; none stands for `{}`.
unfoldable pub last_valid : List Utterance → ℕ → Option Structured
last_valid [] persona_id = none
last_valid (u ∷ us) persona_id = elim (last_valid us persona_id) [
  | some s ↦ some s
  | none ↦ if opt_eq u.persona_id (some persona_id) then readable u else none
]

-- `s.get("understanding")`, `s.get("artifact") or ""`, `s.get("utterance") or ""`
abbrev pub understanding_of : Option Structured → Option ℕ
understanding_of none = none
understanding_of (some (Structured.reaction r)) = r.understanding
understanding_of (some (Structured.source o)) = none
understanding_of (some (Structured.event e)) = none

abbrev pub artifact_of : Option Structured → Text
artifact_of none = []
artifact_of (some (Structured.reaction r)) = r.artifact
artifact_of (some (Structured.source o)) = []
artifact_of (some (Structured.event e)) = []

abbrev pub misconception_of : Option Structured → Text
misconception_of none = []
misconception_of (some (Structured.reaction r)) = r.misconception
misconception_of (some (Structured.source o)) = []
misconception_of (some (Structured.event e)) = []

abbrev pub utterance_of : Option Structured → Text
utterance_of none = []
utterance_of (some (Structured.reaction r)) = r.utterance
utterance_of (some (Structured.source o)) = []
utterance_of (some (Structured.event e)) = []

unfoldable pub previous_understanding : List Utterance → ℕ → Option ℕ
previous_understanding utterances persona_id = understanding_of (last_valid utterances persona_id)

unfoldable pub previous_artifact : List Utterance → ℕ → Text
previous_artifact utterances persona_id = artifact_of (last_valid utterances persona_id)

unfoldable pub previous_utterance : List Utterance → ℕ → Text
previous_utterance utterances persona_id = utterance_of (last_valid utterances persona_id)

-- `student_evidence`: the utterance and the tags that are not empty.
unfoldable pub student_evidence : Utterance → Bool → Text
student_evidence u misconception =
    let tag = λ (label : Text) (value : Text).
      if truthy value then (codes "[" ++ label ++ codes ": " ++ value ++ codes "]") ∷ [] else [] in
    join (codes " ") (
      u.content
      ∷ (tag (codes "산출물") (artifact_of u.structured)
          ++ (if misconception then tag (codes "오개념") (misconception_of u.structured) else [])))

-- `names`: {p.id: p.display_name for p in personas}
abbrev pub name_of : List Persona → Option ℕ → Option Text
name_of [] key = none
name_of (p ∷ ps) key = if opt_eq key (some p.id) then some p.display_name else name_of ps key

-- `_transcript_line`; a student's row of no known persona is a `KeyError`.
unfoldable pub transcript_line : List Persona → Utterance → Result Text
unfolding student_evidence
transcript_line personas u =
    let to : Text = elim (name_of personas u.target_persona_id) [ none ↦ [] | some name ↦ name ] in
    elim u.speaker_type [
      | Speaker.teacher ↦ ok (
          codes "교사("
          ++ (if truthy to then to ++ codes "에게" else codes "전체")
          ++ codes "): "
          ++ u.content)
      | _ ↦ do
        name ← or_raise (name_of personas u.persona_id) Code.unexpected
        ok (name ++ codes ": " ++ student_evidence u false)
    ]

-- `dict[int, str]`, in insertion order.
put_line : ℕ → Text → List (ℕ × Text) → List (ℕ × Text)
put_line k v [] = (k, v) ∷ []
put_line k v ((j, w) ∷ rest) = if j == k then (k, v) ∷ rest else (j, w) ∷ put_line k v rest

module _ (tools : TextTools) where
  shown_step : ℕ → ℕ → Utterance → List (ℕ × Text) × List ℕ → List (ℕ × Text) × List ℕ
  unfolding put_line
  shown_step persona_id idx u (shown, with_artifact) =
      let artifact = tools.strip (artifact_of (readable u)) in
      if not (ltb u.phase_idx idx && opt_eq u.persona_id (some persona_id) && is_some (readable u))
      then (shown, with_artifact)
      else if truthy artifact
      then (put_line u.phase_idx artifact shown, u.phase_idx ∷ with_artifact)
      else if elem u.phase_idx with_artifact
      then (shown, with_artifact)
      else (put_line u.phase_idx u.content shown, with_artifact)

  shown_from : ℕ → ℕ → List Utterance → List (ℕ × Text) × List ℕ → List (ℕ × Text) × List ℕ
  unfolding shown_step
  shown_from persona_id idx [] acc = acc
  shown_from persona_id idx (u ∷ us) acc =
      shown_from persona_id idx us (shown_step persona_id idx u acc)

  -- `_shown_before`
  unfoldable pub shown_before : ℕ → ℕ → List Utterance → List (ℕ × Text)
  unfolding shown_from
  shown_before persona_id idx history = (shown_from persona_id idx history ([], [])).0

or_none_text : Text → Text
or_none_text t = if truthy t then t else codes "(없음)"

-- One line of [수업 흐름].
flow_line : ℕ → Phase → Text
unfolding or_none_text
flow_line now p =
    show (p.idx + 1)
    ++ codes ". "
    ++ p.name
    ++ codes " — "
    ++ or_none_text p.task
    ++ (if p.idx == now then codes " (지금)" else [])

shown_line : List Phase → ℕ × Text → Result Text
shown_line phases (i, line) = do
  phase ← or_raise (get_elem? phases i) Code.unexpected
  ok (show (i + 1) ++ codes ". " ++ phase.name ++ codes ": " ++ line)

-- `GENDER_LABEL` of persona_pool.py
gender_label : Option Json → Option Text
gender_label (some (Json.str g)) =
    if text_eq g (codes "female")
    then some (codes "여")
    else if text_eq g (codes "male")
    then some (codes "남")
    else none
gender_label _ = none

profile_of : Persona → Fields
unfolding gender_label
profile_of persona =
    let named =
      Json.put (Json.put Fields.end (codes "가명") (Json.str persona.display_name)) (codes "학년")
        (or_null (Json.get persona.raw_profile (codes "grade"))) in
    let gendered : Fields = elim (gender_label (Json.get persona.raw_profile (codes "gender"))) [
      | none ↦ named
      | some label ↦ Json.put named (codes "성별") (Json.str label)
    ] in
    Json.merge (Json.put gendered (codes "학업 수준") (Json.str persona.adapted_level))
      persona.adapted_profile

persona_key_of : Persona → Text
persona_key_of persona = elim persona.source [
  | Source.custom ↦ codes "custom:" ++ show persona.source_record_id
  | Source.dataset ↦ show persona.source_record_id
]

-- What the prompts need from elsewhere: `json.dumps(..., ensure_ascii=False)`, and the sections of
-- the prompt file by `PromptLoaderService().get_prompt`.
pub record Prompts : Type 0 where
  pub tools : TextTools
  pub dumps : Fields → Text
  pub get_prompt : Text → Text

abbrev newline : Text
newline = 10 ∷ []

minutes_text : Option ℕ → Text
minutes_text none = []
minutes_text (some m) = if m == 0 then [] else codes " (" ++ show m ++ codes "분)"

shown_block : List (ℕ × Text) → List Text → List Text
shown_block [] lines = []
shown_block (_ ∷ _) lines = codes "[이전 장면에서 내가 보인 것]" ∷ lines

previous_line : Option ℕ → List Text
previous_line none = []
previous_line (some p) = (codes "[직전 이해도] " ++ show p) ∷ []

module _ (prompts : Prompts) where
  -- `student_call`
  unfoldable pub student_call :
      Persona → Phase → List Text → Option ℕ → List Phase → List Utterance → Result Call
  unfolding flow_line shown_line profile_of persona_key_of minutes_text shown_block previous_line
  student_call persona phase transcript previous phases history = do
    let shown = shown_before prompts.tools persona.id phase.idx history
    shown_lines ← map_result (shown_line phases) shown
    ok (record {
      kind = codes "student";
      system =
          prompts.get_prompt (codes "sim_student")
          ++ newline
          ++ newline
          ++ codes "[나의 프로필]"
          ++ newline
          ++ prompts.dumps (profile_of persona);
      user = join newline (
          (codes "[현재 장면] " ++ phase.name ++ minutes_text phase.minutes)
          ∷ (codes "과업: " ++ or_none_text phase.task)
          ∷ (codes "자료: " ++ or_none_text phase.materials)
          ∷ []
          ∷ codes "[수업 흐름]"
          ∷ (map (flow_line phase.idx) phases
              ++ shown_block shown shown_lines
              ++ previous_line previous
              ++ codes "[이번 장면 대화]" ∷ transcript));
      persona_key = some (persona_key_of persona);
    })
