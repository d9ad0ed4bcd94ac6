-- ===== src/Sim/Run/Frozen.antt =====
-- A finished session over the steps of Run.
use mathlib.Core.Option
use elp_gemini.Base.{
  refl, true, none, Option, filter, is_some, some_inj, sym, ℕ, ◌≡◌, ap, ◌∙◌, inl, inr, false, some,
  List, arith, ◌==◌, ==_iff, Bool-cases,
}
use elp_gemini.Sim.Errors.{Code, err}
use elp_gemini.Sim.Gemini.{LlmResult}
use elp_gemini.Sim.Model.{Session, Phase, Persona}
use elp_gemini.Sim.Reaction.{StudentReaction}
use elp_gemini.Sim.Store.{in_session, Db, is_running, session_row, lock_running}
use elp_gemini.Sim.Session.Rows.{Env}
use elp_gemini.Sim.Session.Enter
use elp_gemini.Sim.Session.Say
use elp_gemini.Sim.Session.Move
use elp_gemini.Sim.Session.Again
use elp_gemini.Sim.Session.Feedback
use elp_gemini.Sim.Run
use elp_gemini.Sim.Run.Others.{
  SameSession, SameSession-refl, enter-other, say-other, advance-other, finish-other, again-other,
  save_feedback-row,
}

-- A row but for its feedback.
abbrev pub without_feedback : Session → Session
without_feedback s = record s {
  feedback_json = none;
  feedback_report_path = none;
  feedback_guideline_version = none;
}

abbrev pub IsFinished : ℕ → Db → Type 0
IsFinished sid db =
    (row : Session) × (session_row db sid ≡ some row) × (is_running row.status ≡ false)

module _ (env : Env) (session : Session) (db : Db) (row : Session) where
  module _ (e : session_row db session.id ≡ some row) (ended : is_running row.status ≡ false) where
    -- The lock is refused.
    finished_refused :
        (idx : ℕ) (moved : Code) → lock_running db session idx moved ≡ err Code.session_finished
    unfolding lock_running
    finished_refused idx moved = ground (arith, e, ended)

    enter-finished :
        (idx : ℕ) (phase : Phase) (ps : List Persona) (results : List (LlmResult StudentReaction))
        → Enter.enter_write env session idx phase ps results db ≡ (err Code.session_finished, db)
    unfolding Enter.enter_write
    enter-finished idx phase ps results =
        ground (arith, finished_refused idx Code.phase_not_current)

    say-finished :
        (body : Say.SayRequest) (ask : Say.SayAsk) (results : List (LlmResult StudentReaction))
        → Say.say_write env session body ask results db ≡ (err Code.session_finished, db)
    unfolding Say.say_write
    say-finished body ask results =
        ground (arith, finished_refused session.current_phase_idx Code.conflict_retry)

    advance-finished :
        (mode : Move.Mode) → Move.advance env session mode db ≡ (err Code.session_finished, db)
    unfolding Move.advance
    advance-finished mode =
        ground (arith, finished_refused session.current_phase_idx Code.conflict_retry)

    finish-finished : Move.finish env session db ≡ (err Code.session_finished, db)
    unfolding Move.finish
    finish-finished = ground (arith, finished_refused session.current_phase_idx Code.conflict_retry)

    again-finished :
        (ask : Again.AgainAsk) (result : LlmResult StudentReaction)
        → Again.again_write env session ask result db ≡ (err Code.session_finished, db)
    unfolding Again.again_write
    again-finished ask result =
        ground (arith, finished_refused session.current_phase_idx Code.conflict_retry)

-- By whether the request is one on this session.
by_session :
    (session : Session) (sid : ℕ) (db db' : Db)
    → IsFinished sid db
    → ((row : Session)
        → session_row db session.id ≡ some row
        → is_running row.status ≡ false
        → db' ≡ db)
    → ((session.id == sid) ≡ false → SameSession sid db db')
    → SameSession sid db db'
by_session session sid db db' (row, e, ended) same other = elim (Bool-cases (session.id == sid)) [
  | inr h ↦ other h
  | inl h ↦
      let is_it : session.id ≡ sid = (==_iff session.id sid).0 h in
      rw (same row (rw is_it e) ended) (SameSession-refl sid db)
]

-- What a session's row and its utterances keep once it is finished.
pub record StaysEnded (sid : ℕ) (db db' : Db) : Type 0 where
  pub row :
      Option.map without_feedback (session_row db' sid)
      ≡ Option.map without_feedback (session_row db sid)
  pub feedback :
      (s : Session)
      → session_row db sid ≡ some s
      → is_some s.feedback_json ≡ true
      → session_row db' sid ≡ some s
  pub utterances : filter (in_session sid) db'.utterances ≡ filter (in_session sid) db.utterances

SameSession-StaysEnded : (sid : ℕ) {db db' : Db} → SameSession sid db db' → StaysEnded sid db db'
SameSession-StaysEnded sid s = record {
  row = ap (Option.map without_feedback) s.row;
  feedback = λ r e j. s.row ∙ e;
  utterances = s.utterances;
}

store_feedback-without :
    (saved : Feedback.Saved) (o : Option Session)
    → Option.map without_feedback (Option.map (Feedback.store_feedback saved) o)
      ≡ Option.map without_feedback o
unfolding Feedback.store_feedback
store_feedback-without saved none = refl
store_feedback-without saved (some s) = ground arith

store_feedback-kept :
    (saved : Feedback.Saved) (s : Session)
    → is_some s.feedback_json ≡ true
    → Feedback.store_feedback saved s ≡ s
unfolding Feedback.store_feedback
store_feedback-kept saved s h = rw h refl

feedback-StaysEnded :
    (k sid : ℕ) (saved : Feedback.Saved) (db : Db)
    → StaysEnded sid db (Feedback.save_feedback k saved db).1
feedback-StaysEnded k sid saved db = elim (Bool-cases (k == sid)) [
  | inl y ↦ record {
    row =
        ap (Option.map without_feedback) (written y)
        ∙ store_feedback-without saved (session_row db sid);
    feedback = λ s e j.
        written y
        ∙ ap (Option.map (Feedback.store_feedback saved)) e
        ∙ ap some (store_feedback-kept saved s j);
    utterances = unfold Feedback.save_feedback in refl;
  }
  | inr n ↦ record {
    row = ap (Option.map without_feedback) (other n);
    feedback = λ s e j. other n ∙ e;
    utterances = unfold Feedback.save_feedback in refl;
  }
]
  where
    written :
        (k == sid) ≡ true
        → session_row (Feedback.save_feedback k saved db).1 sid
          ≡ Option.map (Feedback.store_feedback saved) (session_row db sid)
    written y = save_feedback-row k sid saved db ∙ rw y refl

    other :
        (k == sid) ≡ false
        → session_row (Feedback.save_feedback k saved db).1 sid ≡ session_row db sid
    other n = save_feedback-row k sid saved db ∙ rw n refl

finished_step :
    (limit sid : ℕ) {db db' : Db}
    → IsFinished sid db
    → Run.Step limit db db'
    → StaysEnded sid db db'
finished_step limit sid {db} {db'} h (Run.Step.enter env session idx phase ps results e) =
    SameSession-StaysEnded sid (
      by_session session sid db db' h
        (λ row r ended.
          e ∙ ap (λ (p : _). p.1) (enter-finished env session db row r ended idx phase ps results))
        (λ o. rw e (enter-other env session sid db o idx phase ps results)))
finished_step limit sid {db} {db'} h (Run.Step.say env session body ask results l e) =
    SameSession-StaysEnded sid (
      by_session session sid db db' h
        (λ row r ended.
          e ∙ ap (λ (p : _). p.1) (say-finished env session db row r ended body ask results))
        (λ o. rw e (say-other env session sid db o body ask results)))
finished_step limit sid {db} {db'} h (Run.Step.advance env session mode e) =
    SameSession-StaysEnded sid (
      by_session session sid db db' h
        (λ row r ended. e ∙ ap (λ (p : _). p.1) (advance-finished env session db row r ended mode))
        (λ o. rw e (advance-other env session sid db o mode)))
finished_step limit sid {db} {db'} h (Run.Step.finish env session e) = SameSession-StaysEnded sid (
    by_session session sid db db' h
      (λ row r ended. e ∙ ap (λ (p : _). p.1) (finish-finished env session db row r ended))
      (λ o. rw e (finish-other env session sid db o)))
finished_step limit sid {db} {db'} h (Run.Step.regenerate env session ask result k e) =
    SameSession-StaysEnded sid (
      by_session session sid db db' h
        (λ row r ended.
          e ∙ ap (λ (p : _). p.1) (again-finished env session db row r ended ask result))
        (λ o. rw e (again-other env session sid db o ask result k)))
finished_step limit sid {db} {db'} h (Run.Step.feedback k saved e) =
    rw e (feedback-StaysEnded k sid saved db)

StaysEnded-IsFinished :
    (sid : ℕ) {db db' : Db} → StaysEnded sid db db' → IsFinished sid db → IsFinished sid db'
StaysEnded-IsFinished sid {db} {db'} f (row, e, ended) = at (session_row db' sid) refl
  where
    same :
        (o : Option Session)
        → session_row db' sid ≡ o
        → Option.map without_feedback o ≡ some (without_feedback row)
    same o h = ap (Option.map without_feedback) (sym h) ∙ f.row ∙ ap (Option.map without_feedback) e

    at : (o : Option Session) → session_row db' sid ≡ o → IsFinished sid db'
    at none h = cc (same none h)
    at (some s) h =
        (s, h, ap (λ (x : Session). is_running x.status) (some_inj (same (some s) h)) ∙ ended)

-- Once a session is finished, no sequence of the writes of enter, say, advance, finish, regenerate and
-- the feedback, however they interleave and however old what they read, changes its utterances or its
-- row beyond the three columns of the feedback, and these are written once: with a feedback in it,
-- the row stays.
pub finished_is_final :
    (limit sid : ℕ) {db db' : Db}
    → IsFinished sid db
    → Run.Reach limit db db'
    → StaysEnded sid db db'
finished_is_final limit sid {db} h Run.Reach.here =
    SameSession-StaysEnded sid (SameSession-refl sid db)
finished_is_final limit sid {db} h (Run.Reach.next r st) =
    let before = finished_is_final limit sid h r in
    let after = finished_step limit sid (StaysEnded-IsFinished sid before h) st in
    record {
      row = after.row ∙ before.row;
      feedback = λ s e j. after.feedback s (before.feedback s e j) j;
      utterances = after.utterances ∙ before.utterances;
    }
