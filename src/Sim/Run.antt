-- ===== src/Sim/Run.antt =====
-- Any number of requests at work at once (app/routers/simulation/core.py and feedback.py over
-- app/services/simulation/session_service.py and feedback.py). A request may read at any time, and what it read may
-- be out of date when it comes to write; under SQLite's write lock the writing parts run one after
-- the other. So a step is one writing part, over a session object, a question and answers that are
-- arbitrary.
pub mod Others
pub mod Frozen
pub mod Sound
pub mod Scenes
use elp_gemini.Base.{
  if◌then◌else◌, if◌then◌else◌, if◌then◌else◌, if◌then◌else◌, if◌then◌else◌, if◌then◌else◌, Text,
  codes, text_eq, text_eq_iff, ℕ, zero, suc, ◌+◌, ◌-◌, ◌*◌, ◌/◌, ◌%◌, ◌≤◌, ◌<◌, min, max, String,
  ◌≡◌, refl, sym, ap, subst, ◌∙◌, ◌≢◌, ◌↔◌, ◌⊎◌, inl, inr, Bool, true, false, ◌&&◌, ◌||◌, not,
  Option, none, some, List, [], ◌∷◌, ◌++◌, map, append_assoc, append-nil, arith, ltb, leb, ◌==◌,
  if◌then◌else◌, leb→le, le→leb, ltb→lt, ==_iff, ==_refl, Bool-cases, Option-cases, &&-eq-true,
  is_some, opt_eq, length, get_elem?, filter, any, all, find, count, get_last?, order_by,
  any-append, count-append, filter-append, any-filter, any-order_by, length-order_by, length-append,
  length-filter_le, elem, zip, length-map, List-cases,
}
use elp_gemini.Sim.Gemini.{LlmResult}
use elp_gemini.Sim.Model.{Session, Phase, Persona, Utterance}
use elp_gemini.Sim.Reaction.{StudentReaction}
use elp_gemini.Sim.Store.{Db}
use elp_gemini.Sim.Session.Rows.{Env}
use elp_gemini.Sim.Session.Enter
use elp_gemini.Sim.Session.Say
use elp_gemini.Sim.Session.Move
use elp_gemini.Sim.Session.Again
use elp_gemini.Sim.Session.Feedback
use elp_gemini.Sim.Run.Others.{KeepsSession}

pub data Step (limit : ℕ) (db db' : Db) : Type 0 where
  enter :
      (env : Env) (session : Session) (idx : ℕ) (phase : Phase) (ps : List Persona)
      (results : List (LlmResult StudentReaction))
      → db' ≡ (Enter.enter_write env session idx phase ps results db).1
      → Step limit db db'
  say :
      (env : Env) (session : Session) (body : Say.SayRequest) (ask : Say.SayAsk)
      (results : List (LlmResult StudentReaction))
      → env.max_teacher_turns ≡ limit
      → db' ≡ (Say.say_write env session body ask results db).1
      → Step limit db db'
  advance :
      (env : Env) (session : Session) (mode : Move.Mode)
      → db' ≡ (Move.advance env session mode db).1
      → Step limit db db'
  finish :
      (env : Env) (session : Session) → db' ≡ (Move.finish env session db).1 → Step limit db db'
  regenerate :
      (env : Env) (session : Session) (ask : Again.AgainAsk) (result : LlmResult StudentReaction)
      → KeepsSession session ask.row.id db
      → db' ≡ (Again.again_write env session ask result db).1
      → Step limit db db'
  feedback :
      (sid : ℕ) (saved : Feedback.Saved)
      → db' ≡ (Feedback.save_feedback sid saved db).1
      → Step limit db db'

pub data Reach (limit : ℕ) (db : Db) : Db → Type 0 where
  here : Reach limit db db
  next : {db' db'' : Db} → Reach limit db db' → Step limit db' db'' → Reach limit db db''
