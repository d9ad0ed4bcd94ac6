-- ===== src/Sim/Session/Enter.antt =====
-- `enter_phase` of app/services/simulation/session_service.py.
pub mod Scene
use elp_gemini.Base.{
  Text, codes, text_eq, text_eq_iff, ℕ, zero, suc, ◌+◌, ◌-◌, ◌*◌, ◌/◌, ◌%◌, ◌≤◌, ◌<◌, min, max,
  String, ◌≡◌, refl, sym, ap, subst, ◌∙◌, ◌≢◌, ◌↔◌, ◌⊎◌, inl, inr, Bool, true, false, ◌&&◌, ◌||◌,
  not, Option, none, some, List, [], ◌∷◌, ◌++◌, map, append_assoc, append-nil, arith, ltb, leb,
  ◌==◌, if◌then◌else◌, leb→le, le→leb, ltb→lt, ==_iff, ==_refl, Bool-cases, Option-cases,
  &&-eq-true, is_some, opt_eq, length, get_elem?, filter, any, all, find, count, get_last?,
  order_by, any-append, count-append, filter-append, any-filter, any-order_by, length-order_by,
  length-append, length-filter_le, elem, zip, length-map,
}
use elp_gemini.Sim.Errors.{Code, Result, ok, err, ◌>>=◌, ◌>>◌, raise_if, or_raise, map_result}
use elp_gemini.Sim.Gemini.{Call, LlmResult, Outcome, call_many}
use elp_gemini.Sim.Model.{
  Status, Session, Phase, Persona, Origin, Event, Speaker, Structured, Utterance, is_student,
  is_teacher, is_system,
}
use elp_gemini.Sim.Agreement.{Agreement}
use elp_gemini.Sim.Reaction.{StudentReaction, Context, student_utterance}
use elp_gemini.Sim.Prompt.{
  Prompts, student_call, transcript_line, previous_understanding, previous_artifact,
  previous_utterance,
}
use elp_gemini.Sim.Store.{
  Db, is_running, phases_of, personas_of, utterances_of, scene_of, teacher_turns_used, next_seq,
  agreement, insert_rows, update_session, lock_running,
}
use elp_gemini.Sim.Session.Replies.{TurnResult, turn_result}
use elp_gemini.Sim.Session.Rows.{Env, student_rows, plain_row, system_row}

abbrev pub first_context : Persona → Context
first_context p = record {
  first = true;
  previous = none;
  teacher = [];
  previous_artifact = [];
  previous_utterance = [];
}

-- What `enter_phase` does under the lock: the rows of a scene that nobody has entered.
unfoldable pub enter_rows :
    Env → Session → ℕ → Phase → List Persona → List (LlmResult StudentReaction) → ℕ → List Utterance
unfolding student_rows plain_row
enter_rows env session idx phase personas results seq =
    plain_row session.id idx seq Speaker.system none (phase.name ++ codes " 장면 시작")
      (Structured.event Event.phase_enter)
    ∷ plain_row session.id idx (seq + 1) Speaker.teacher none phase.teacher_prompt
        (Structured.source Origin.plan)
    ∷ student_rows env session.id idx (seq + 2) first_context personas results

unfoldable pub enter_write :
    Env
    → Session
    → ℕ
    → Phase
    → List Persona
    → List (LlmResult StudentReaction)
    → Db
    → Result TurnResult × Db
unfolding enter_rows
enter_write env session idx phase personas results db =
    elim (lock_running db session idx Code.phase_not_current) [
      | err e ↦ (err e, db)
      | ok _ ↦ elim (scene_of db session.id idx) [
        | u ∷ us ↦ (ok (turn_result db session (u ∷ us)), db)
        | [] ↦
            let seq = next_seq db session.id in
            let rows = enter_rows env session idx phase personas results seq in
            elim (insert_rows env.now db.utterances rows) [
              | none ↦ (ok (turn_result db session (scene_of db session.id idx)), db)
              | some us ↦
                  let db' : Db = record db { utterances = us } in
                  (ok (turn_result db' session (scene_of db' session.id idx)), db')
            ]
      ]
    ]

record EnterAsk : Type 0 where
  phase : Phase
  personas : List Persona
  calls : List Call

enter_ask : Env → Session → ℕ → Db → Result EnterAsk
enter_ask env session idx db = do
  let phases = phases_of db session.id
  phase ← or_raise (get_elem? phases idx) Code.unexpected
  let personas = personas_of db session.id
  let transcript = (codes "교사(전체): " ++ phase.teacher_prompt) ∷ []
  let history = utterances_of db session.id
  calls ← map_result (λ p. student_call env.prompts p phase transcript none phases history) personas
  ok (record { phase = phase; personas = personas; calls = calls })

-- `enter_phase`
unfoldable pub enter_phase : Env → Session → ℕ → Db → Result TurnResult × Db
unfolding enter_ask
enter_phase env session idx db =
    if not (is_running session.status)
    then (err Code.session_finished, db)
    else if not (idx == session.current_phase_idx)
    then (err Code.phase_not_current, db)
    else elim (scene_of db session.id idx) [
      | u ∷ us ↦ (ok (turn_result db session (u ∷ us)), db)
      | [] ↦ elim (enter_ask env session idx db) [
        | err e ↦ (err e, db)
        | ok ask ↦ elim (call_many env.call_structured ask.calls) [
          | err e ↦ (err e, env.meanwhile db)
          | ok results ↦
              enter_write env session idx ask.phase ask.personas results (env.meanwhile db)
        ]
      ]
    ]
