-- ===== src/Sim/Run/Sound.antt =====
-- The limit on the teacher's turns over the steps of Run.
use elp_gemini.Base.{refl, ℕ, ◌+◌, ◌≤◌, ◌≡◌, inl, inr, List, arith, Option-cases}
use native.Mathlib.Nat.{le_trans}
use elp_gemini.Sim.Errors.{Result-cases}
use elp_gemini.Sim.Gemini.{LlmResult}
use elp_gemini.Sim.Model.{Session, Phase, Persona}
use elp_gemini.Sim.Reaction.{StudentReaction}
use elp_gemini.Sim.Store.{Db, teacher_turns_used, next_seq, insert_rows}
use elp_gemini.Sim.Store.Rows.{turns-insert}
use elp_gemini.Sim.Session.Rows.{Env}
use elp_gemini.Sim.Session.Enter
use elp_gemini.Sim.Session.Say.Turns.{say_write_within, student_rows-turns}
use elp_gemini.Sim.Session.Move
use elp_gemini.Sim.Session.Move.Commits.{Committed, advance-Committed, finish-Committed}
use elp_gemini.Sim.Session.Move.Scenes.{advance_atomic, finish_atomic}
use elp_gemini.Sim.Session.Again
use elp_gemini.Sim.Session.Again.Answer.{again_write_atomic, again_write-Answered, Answered-turns}
use elp_gemini.Sim.Session.Feedback
use elp_gemini.Sim.Run

module _ (env : Env) (session : Session) (db : Db) (k : ℕ) where
  enter-turns :
      (idx : ℕ) (phase : Phase) (ps : List Persona) (results : List (LlmResult StudentReaction))
      → teacher_turns_used (Enter.enter_write env session idx phase ps results db).1 k
        ≡ teacher_turns_used db k
  unfolding Enter.enter_write teacher_turns_used
  enter-turns idx phase ps results =
      let seq = next_seq db session.id in
      let rows = Enter.enter_rows env session idx phase ps results seq in
      let students =
        student_rows-turns env session.id k idx (seq + 2) Enter.first_context ps results in
      elim (Option-cases (insert_rows env.now db.utterances rows)) [
        | inl e ↦ ground (arith, e)
        | inr (us, e) ↦ ground (arith, e, students, turns-insert env.now k db.utterances rows us e)
      ]

  Committed-turns :
      (db' : Db) → Committed env session db db' → teacher_turns_used db' k ≡ teacher_turns_used db k
  unfolding Move.commit_move teacher_turns_used
  Committed-turns db' c = elim (Option-cases (insert_rows env.now db.utterances c.rows)) [
    | inl e ↦ absurd (ground (arith, e, c.done))
    | inr (us, e) ↦
        ground (arith, e, c.done, c.no_turns k, turns-insert env.now k db.utterances c.rows us e)
  ]

feedback-turns :
    (sid : ℕ) (saved : Feedback.Saved) (db : Db) (k : ℕ)
    → teacher_turns_used (Feedback.save_feedback sid saved db).1 k ≡ teacher_turns_used db k
unfolding Feedback.save_feedback teacher_turns_used
feedback-turns sid saved db k = refl

within_step :
    (limit k : ℕ) {db db' : Db}
    → teacher_turns_used db k ≤ limit
    → Run.Step limit db db'
    → teacher_turns_used db' k ≤ limit
within_step limit k {db} {db'} h (Run.Step.enter env session idx phase ps results e) =
    rw e (rw (enter-turns env session db k idx phase ps results) h)
within_step limit k {db} {db'} h (Run.Step.say env session body ask results l e) =
    rw (e, ← l) (say_write_within env session body ask results db k (rw l h))
within_step limit k {db} {db'} h (Run.Step.advance env session mode e) =
    rw e (elim (Result-cases (Move.advance env session mode db).0) [
      | inl (a, f) ↦
          rw (Committed-turns env session db k _ (advance-Committed env session db mode a f)) h
      | inr (c, f) ↦ rw (advance_atomic env session mode db c f) h
    ])
within_step limit k {db} {db'} h (Run.Step.finish env session e) =
    rw e (elim (Result-cases (Move.finish env session db).0) [
      | inl (a, f) ↦ rw (Committed-turns env session db k _ (finish-Committed env session db a f)) h
      | inr (c, f) ↦ rw (finish_atomic env session db c f) h
    ])
within_step limit k {db} {db'} h (Run.Step.regenerate env session ask result keeps e) =
    rw e (elim (Result-cases (Again.again_write env session ask result db).0) [
      | inl (a, f) ↦
          le_trans
            (Answered-turns env session ask.row.id k
              (again_write-Answered env session ask result db a f))
            h
      | inr (c, f) ↦ rw (again_write_atomic env session ask result db c f) h
    ])
within_step limit k {db} {db'} h (Run.Step.feedback sid saved e) =
    rw e (rw (feedback-turns sid saved db k) h)

-- No interleaving of requests lets a session have more teacher's turns than the limit.
pub turns_within_limit :
    (limit k : ℕ) {db db' : Db}
    → teacher_turns_used db k ≤ limit
    → Run.Reach limit db db'
    → teacher_turns_used db' k ≤ limit
turns_within_limit limit k h Run.Reach.here = h
turns_within_limit limit k h (Run.Reach.next r st) =
    within_step limit k (turns_within_limit limit k h r) st
