-- ===== src/Sim/Session/Move.antt =====
-- `advance` and `finish` of app/services/simulation/session_service.py.
pub mod Commits
pub mod Scenes
use elp_gemini.Base.{
  Text, codes, text_eq, text_eq_iff, ℕ, zero, suc, ◌+◌, ◌-◌, ◌*◌, ◌/◌, ◌%◌, ◌≤◌, ◌<◌, min, max,
  String, ◌≡◌, refl, sym, ap, subst, ◌∙◌, ◌≢◌, ◌↔◌, ◌⊎◌, inl, inr, Bool, true, false, ◌&&◌, ◌||◌,
  not, Option, none, some, List, [], ◌∷◌, ◌++◌, map, append_assoc, append-nil, arith, ltb, leb,
  ◌==◌, if◌then◌else◌, leb→le, le→leb, ltb→lt, ==_iff, ==_refl, Bool-cases, Option-cases,
  &&-eq-true, is_some, opt_eq, length, get_elem?, filter, any, all, find, count, get_last?,
  order_by, any-append, count-append, filter-append, any-filter, any-order_by, length-order_by,
  length-append, length-filter_le, elem, zip, length-map,
}
use elp_gemini.Sim.Errors.{Code, Result, ok, err, ◌>>=◌, ◌>>◌, raise_if, or_raise, map_result}
use elp_gemini.Sim.Gemini.{Call, LlmResult, Outcome, call_many}
use elp_gemini.Sim.Model.{
  Status, Session, Phase, Persona, Origin, Event, Speaker, Structured, Utterance, is_student,
  is_teacher, is_system,
}
use elp_gemini.Sim.Agreement.{Agreement}
use elp_gemini.Sim.Reaction.{StudentReaction, Context, student_utterance}
use elp_gemini.Sim.Prompt.{
  Prompts, student_call, transcript_line, previous_understanding, previous_artifact,
  previous_utterance,
}
use elp_gemini.Sim.Store.{
  Db, is_running, phases_of, personas_of, utterances_of, scene_of, teacher_turns_used, next_seq,
  agreement, insert_rows, update_session, lock_running,
}
use elp_gemini.Sim.Session.Rows.{Env, student_rows, plain_row, system_row}

-- `_finish_now`: the time is the clock's.
unfoldable pub finish_now : ℕ → Session → Session
finish_now now s = record s { status = Status.finished; finished_at = some now }

unfoldable pub next_scene : Session → Session
next_scene s = record s { current_phase_idx = s.current_phase_idx + 1 }

pub data Mode : Type 0 where
  agree skip : Mode

pub record Advanced : Type 0 where
  pub status : Status
  pub current_phase_idx : ℕ
  pub next_phase : Option Phase

-- The row of the move itself.
unfoldable pub move_row : Mode → Session → Phase → ℕ → Utterance
unfolding system_row
move_row Mode.agree session phase seq =
    system_row session seq (phase.name ++ codes ": 전원 동의로 다음 장면") Event.agree_advance
move_row Mode.skip session phase seq =
    system_row session seq (phase.name ++ codes ": 건너뜀") Event.skip

unfoldable pub last_rows : Mode → Session → Phase → ℕ → List Utterance
unfolding move_row
last_rows mode session phase seq =
    move_row mode session phase seq
    ∷ system_row session (seq + 1) (codes "수업 종료 (마지막 장면)") Event.end_last_phase
    ∷ []

-- `_commit_or_conflict` of new rows together with a change of the session's row.
unfoldable pub commit_move : ℕ → ℕ → List Utterance → (Session → Session) → Db → Option Db
commit_move now sid rows change db = elim (insert_rows now db.utterances rows) [
  | none ↦ none
  | some us ↦ some (record db { utterances = us; sessions = update_session sid change db.sessions })
]

abbrev needs_agreement : Mode → Bool
needs_agreement Mode.agree = true
needs_agreement Mode.skip = false

unfoldable pub advance_commit : Option Db → Advanced → Db → Result Advanced × Db
advance_commit none reply db = (err Code.conflict_retry, db)
advance_commit (some db') reply db = (ok reply, db')

-- `advance` under the lock. A raise ends the request, and its lock is rolled back.
unfoldable pub advance_locked : Env → Session → Mode → Db → Result Advanced × Db
unfolding advance_commit commit_move move_row last_rows finish_now next_scene
advance_locked env session mode db =
    if needs_agreement mode && not (agreement db session).all_agreed
    then (err Code.not_all_agreed, db)
    else let phases = phases_of db session.id in
      elim (get_elem? phases session.current_phase_idx) [
        | none ↦ (err Code.unexpected, db)
        | some phase ↦
            let seq = next_seq db session.id in
            elim (get_elem? phases (session.current_phase_idx + 1)) [
              | some p ↦
                  advance_commit
                    (commit_move env.now session.id (move_row mode session phase seq ∷ [])
                      next_scene db)
                    (record {
                      status = session.status;
                      current_phase_idx = session.current_phase_idx + 1;
                      next_phase = some p;
                    })
                    db
              | none ↦
                  advance_commit
                    (commit_move env.now session.id (last_rows mode session phase seq)
                      (finish_now env.now) db)
                    (record {
                      status = Status.finished;
                      current_phase_idx = session.current_phase_idx;
                      next_phase = none;
                    })
                    db
            ]
      ]

unfoldable pub advance : Env → Session → Mode → Db → Result Advanced × Db
unfolding advance_locked
advance env session mode db =
    if not (is_running session.status)
    then (err Code.session_finished, db)
    else elim (lock_running db session session.current_phase_idx Code.conflict_retry) [
      | err e ↦ (err e, db)
      | ok _ ↦ advance_locked env session mode db
    ]

unfoldable pub finish : Env → Session → Db → Result Status × Db
unfolding commit_move finish_now
finish env session db =
    if not (is_running session.status)
    then (err Code.session_finished, db)
    else elim (lock_running db session session.current_phase_idx Code.conflict_retry) [
      | err e ↦ (err e, db)
      | ok _ ↦
          let row = system_row session (next_seq db session.id) (codes "수업 종료") Event.end_finish in
          elim (commit_move env.now session.id (row ∷ []) (finish_now env.now) db) [
            | none ↦ (err Code.conflict_retry, db)
            | some db' ↦ (ok Status.finished, db')
          ]
    ]
