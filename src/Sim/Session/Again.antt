-- ===== src/Sim/Session/Again.antt =====
-- `regenerate` of app/services/simulation/session_service.py.
pub mod Answer
use elp_gemini.Base.{
  Text, codes, text_eq, text_eq_iff, ℕ, zero, suc, ◌+◌, ◌-◌, ◌*◌, ◌/◌, ◌%◌, ◌≤◌, ◌<◌, min, max,
  String, ◌≡◌, refl, sym, ap, subst, ◌∙◌, ◌≢◌, ◌↔◌, ◌⊎◌, inl, inr, Bool, true, false, ◌&&◌, ◌||◌,
  not, Option, none, some, List, [], ◌∷◌, ◌++◌, map, append_assoc, append-nil, arith, ltb, leb,
  ◌==◌, if◌then◌else◌, leb→le, le→leb, ltb→lt, ==_iff, ==_refl, Bool-cases, Option-cases,
  &&-eq-true, is_some, opt_eq, length, get_elem?, filter, any, all, find, count, get_last?,
  order_by, any-append, count-append, filter-append, any-filter, any-order_by, length-order_by,
  length-append, length-filter_le, elem, zip, length-map,
}
use elp_gemini.Sim.Errors.{Code, Result, ok, err, ◌>>=◌, ◌>>◌, raise_if, or_raise, map_result}
use elp_gemini.Sim.Gemini.{Call, LlmResult, Outcome, call_many}
use elp_gemini.Sim.Model.{
  Status, Session, Phase, Persona, Origin, Event, Speaker, Structured, Utterance, is_student,
  is_teacher, is_system,
}
use elp_gemini.Sim.Agreement.{Agreement}
use elp_gemini.Sim.Reaction.{StudentReaction, Context, student_utterance}
use elp_gemini.Sim.Prompt.{
  Prompts, student_call, transcript_line, previous_understanding, previous_artifact,
  previous_utterance,
}
use elp_gemini.Sim.Store.{
  Db, is_running, phases_of, personas_of, utterances_of, scene_of, teacher_turns_used, next_seq,
  agreement, insert_rows, update_session, lock_running,
}
use elp_gemini.Sim.Session.Replies.{TurnResult, turn_result}
use elp_gemini.Sim.Session.Rows.{Env, student_rows, plain_row, system_row}
use elp_gemini.Sim.Session.Say.{has_id, not_system, say_context}

abbrev pub is_mine : ℕ → Utterance → Bool
is_mine persona_id u = opt_eq u.persona_id (some persona_id)

-- `mine[:-1]`
unfoldable pub all_but_last : List Utterance → List Utterance
all_but_last [] = []
all_but_last (u ∷ []) = []
all_but_last (u ∷ v ∷ us) = u ∷ all_but_last (v ∷ us)

-- `max(u.seq for u in stored if ...)`; of no element Python's `max` raises.
asked_at : ℕ → List Utterance → Option ℕ
asked_at seq [] = none
asked_at seq (u ∷ us) =
    let rest = asked_at seq us in
    if is_teacher u.speaker_type && ltb u.seq seq
    then some (elim rest [ none ↦ u.seq | some m ↦ max u.seq m ])
    else rest

pub record AgainAsk : Type 0 where
  pub persona : Persona
  pub row : Utterance
  pub mine : List Utterance
  pub question : Text
  pub call : Call

-- `regenerate` up to the model call.
unfoldable pub again_ask : Env → Session → ℕ → Db → Result AgainAsk
unfolding asked_at
again_ask env session persona_id db = do
  raise_if (not (is_running session.status)) Code.session_finished
  let personas = personas_of db session.id
  raise_if (not (has_id personas persona_id)) Code.unknown_persona
  let stored = scene_of db session.id session.current_phase_idx
  let mine = filter (is_mine persona_id) stored
  row ← or_raise (get_last? mine) Code.nothing_to_regenerate
  raise_if (is_some row.structured) Code.nothing_to_regenerate
  asked ← or_raise (asked_at row.seq stored) Code.unexpected
  transcript ←
      map_result (transcript_line personas) (filter (λ u. not_system u && leb u.seq asked) stored)
  persona ← or_raise (find (λ p. p.id == persona_id) personas) Code.unexpected
  let phases = phases_of db session.id
  phase ← or_raise (get_elem? phases session.current_phase_idx) Code.unexpected
  let previous = previous_understanding (all_but_last mine) persona_id
  let history = utterances_of db session.id
  call ← student_call env.prompts persona phase transcript previous phases history
  question ← or_raise (find (λ u. u.seq == asked) stored) Code.unexpected
  ok (record {
    persona = persona;
    row = row;
    mine = mine;
    question = question.content;
    call = call;
  })

-- The five columns that `setattr` copies.
unfoldable pub replace_answer : Utterance → Utterance → Utterance
replace_answer fresh u = record u {
  content = fresh.content;
  structured = fresh.structured;
  model_name = fresh.model_name;
  temperature = fresh.temperature;
  latency_ms = fresh.latency_ms;
}

-- `UPDATE ... WHERE id = row.id`
unfoldable pub update_row : ℕ → (Utterance → Utterance) → List Utterance → List Utterance
update_row k f [] = []
update_row k f (u ∷ us) = (if u.id == k then f u else u) ∷ update_row k f us

unfoldable pub again_context : AgainAsk → Persona → Context
unfolding say_context
again_context ask p = record (say_context (all_but_last ask.mine) ask.question p) {
  first = length ask.mine == 1;
}

-- `regenerate` from the lock on; the reply's row is the one that the refresh reads. All five
-- columns are written, also one that already has its new value.
unfoldable pub again_write :
    Env → Session → AgainAsk → LlmResult StudentReaction → Db → Result TurnResult × Db
unfolding again_context replace_answer
again_write env session ask result db =
    elim (lock_running db session session.current_phase_idx Code.conflict_retry) [
      | err e ↦ (err e, db)
      | ok _ ↦
          let fresh =
            student_utterance env.prompts.tools session.id session.current_phase_idx ask.row.seq
              ask.persona result (again_context ask ask.persona) in
          let db' : Db = record db {
            utterances = update_row ask.row.id (replace_answer fresh) db.utterances;
          } in
          elim (find (λ u. u.id == ask.row.id) db'.utterances) [
            | none ↦ (err Code.unexpected, db)
            | some row ↦ (ok (turn_result db' session (row ∷ [])), db')
          ]
    ]

-- `[result] = await gemini.call_many([...])`
unfoldable pub regenerate : Env → Session → ℕ → Db → Result TurnResult × Db
unfolding again_ask again_write
regenerate env session persona_id db = elim (again_ask env session persona_id db) [
  | err e ↦ (err e, db)
  | ok ask ↦ elim (call_many env.call_structured (ask.call ∷ [])) [
    | err e ↦ (err e, env.meanwhile db)
    | ok [] ↦ (err Code.unexpected, env.meanwhile db)
    | ok (result ∷ _) ↦ again_write env session ask result (env.meanwhile db)
  ]
]
