-- ===== src/Sim/Session/Say.antt =====
-- `say` of app/services/simulation/session_service.py.
pub mod Turns
use elp_gemini.Base.{
  Text, codes, text_eq, text_eq_iff, ℕ, zero, suc, ◌+◌, ◌-◌, ◌*◌, ◌/◌, ◌%◌, ◌≤◌, ◌<◌, min, max,
  String, ◌≡◌, refl, sym, ap, subst, ◌∙◌, ◌≢◌, ◌↔◌, ◌⊎◌, inl, inr, Bool, true, false, ◌&&◌, ◌||◌,
  not, Option, none, some, List, [], ◌∷◌, ◌++◌, map, append_assoc, append-nil, arith, ltb, leb,
  ◌==◌, if◌then◌else◌, leb→le, le→leb, ltb→lt, ==_iff, ==_refl, Bool-cases, Option-cases,
  &&-eq-true, is_some, opt_eq, length, get_elem?, filter, any, all, find, count, get_last?,
  order_by, any-append, count-append, filter-append, any-filter, any-order_by, length-order_by,
  length-append, length-filter_le, elem, zip, length-map,
}
use elp_gemini.Sim.Errors.{Code, Result, ok, err, ◌>>=◌, ◌>>◌, raise_if, or_raise, map_result}
use elp_gemini.Sim.Gemini.{Call, LlmResult, Outcome, call_many}
use elp_gemini.Sim.Model.{
  Status, Session, Phase, Persona, Origin, Event, Speaker, Structured, Utterance, is_student,
  is_teacher, is_system,
}
use elp_gemini.Sim.Agreement.{Agreement}
use elp_gemini.Sim.Reaction.{StudentReaction, Context, student_utterance}
use elp_gemini.Sim.Prompt.{
  Prompts, student_call, transcript_line, previous_understanding, previous_artifact,
  previous_utterance,
}
use elp_gemini.Sim.Store.{
  Db, is_running, phases_of, personas_of, utterances_of, scene_of, teacher_turns_used, next_seq,
  agreement, insert_rows, update_session, lock_running,
}
use elp_gemini.Sim.Session.Replies.{TurnResult, turn_result}
use elp_gemini.Sim.Session.Rows.{Env, student_rows, plain_row, system_row}

pub record SayRequest : Type 0 where
  pub content : Text
  pub target_persona_id : Option ℕ

abbrev pub has_id : List Persona → ℕ → Bool
has_id ps k = any (λ p. p.id == k) ps

-- `target is not None and target not in {p.id for p in personas}`
abbrev pub unknown_target : List Persona → Option ℕ → Bool
unknown_target ps none = false
unknown_target ps (some k) = not (has_id ps k)

abbrev pub addressed : Option ℕ → Persona → Bool
addressed none p = true
addressed (some k) p = k == p.id

pub record SayAsk : Type 0 where
  pub stored : List Utterance
  pub responders : List Persona
  pub calls : List Call

-- The teacher's row; its seq is set under the lock.
unfoldable pub teacher_row : Session → SayRequest → ℕ → Utterance
unfolding plain_row
teacher_row session body seq =
    plain_row session.id session.current_phase_idx seq Speaker.teacher body.target_persona_id
      body.content (Structured.source Origin.user)

abbrev pub not_system : Utterance → Bool
not_system u = not (is_system u.speaker_type)

-- `say` up to the model calls.
unfoldable pub say_ask : Env → Session → SayRequest → Db → Result SayAsk
unfolding teacher_row
say_ask env session body db = do
  raise_if (not (is_running session.status)) Code.session_finished
  let stored = scene_of db session.id session.current_phase_idx
  raise_if (length stored == 0) Code.phase_not_entered
  let personas = personas_of db session.id
  raise_if (unknown_target personas body.target_persona_id) Code.unknown_persona
  raise_if (leb env.max_teacher_turns (teacher_turns_used db session.id)) Code.turn_limit
  transcript ←
      map_result (transcript_line personas)
        (filter not_system (stored ++ teacher_row session body 0 ∷ []))
  let phases = phases_of db session.id
  phase ← or_raise (get_elem? phases session.current_phase_idx) Code.unexpected
  let history = utterances_of db session.id
  let responders = filter (addressed body.target_persona_id) personas
  calls ←
      map_result
        (λ p.
          student_call env.prompts p phase transcript (previous_understanding stored p.id) phases
            history)
        responders
  ok (record { stored = stored; responders = responders; calls = calls })

unfoldable pub say_context : List Utterance → Text → Persona → Context
say_context stored teacher p = record {
  first = false;
  previous = previous_understanding stored p.id;
  teacher = teacher;
  previous_artifact = previous_artifact stored p.id;
  previous_utterance = previous_utterance stored p.id;
}

unfoldable pub say_rows :
    Env → Session → SayRequest → SayAsk → List (LlmResult StudentReaction) → ℕ → List Utterance
unfolding teacher_row student_rows say_context
say_rows env session body ask results seq =
    teacher_row session body seq
    ∷ student_rows env session.id session.current_phase_idx (seq + 1)
        (say_context ask.stored body.content) ask.responders results

-- `say` from the lock on.
unfoldable pub say_write :
    Env
    → Session
    → SayRequest
    → SayAsk
    → List (LlmResult StudentReaction)
    → Db
    → Result TurnResult × Db
unfolding say_rows
say_write env session body ask results db =
    elim (lock_running db session session.current_phase_idx Code.conflict_retry) [
      | err e ↦ (err e, db)
      | ok _ ↦
          if leb env.max_teacher_turns (teacher_turns_used db session.id)
          then (err Code.turn_limit, db)
          else let seq = next_seq db session.id in
            elim (insert_rows env.now db.utterances (say_rows env session body ask results seq)) [
              | none ↦ (err Code.conflict_retry, db)
              | some us ↦
                  let db' : Db = record db { utterances = us } in
                  (
                    ok (
                        turn_result db' session (
                          filter (λ u. leb seq u.seq)
                            (scene_of db' session.id session.current_phase_idx))),
                    db',
                  )
            ]
    ]

unfoldable pub say : Env → Session → SayRequest → Db → Result TurnResult × Db
say env session body db = elim (say_ask env session body db) [
  | err e ↦ (err e, db)
  | ok ask ↦ elim (call_many env.call_structured ask.calls) [
    | err e ↦ (err e, env.meanwhile db)
    | ok results ↦ say_write env session body ask results (env.meanwhile db)
  ]
]
