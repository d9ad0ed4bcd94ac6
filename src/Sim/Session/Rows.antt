-- ===== src/Sim/Session/Rows.antt =====
-- The surroundings of a session request and the rows that it builds
-- (app/services/simulation/session_service.py).
use elp_gemini.Base.{Text, ℕ, ◌+◌, Option, none, some, List, [], ◌∷◌}
use elp_gemini.Sim.Gemini.{Call, LlmResult, Outcome}
use elp_gemini.Sim.Model.{Session, Persona, Event, Speaker, Structured, Utterance}
use elp_gemini.Sim.Reaction.{StudentReaction, Context, student_utterance}
use elp_gemini.Sim.Prompt.{Prompts}
use elp_gemini.Sim.Store.{Db}

-- What a request meets outside its own code: the prompt texts, the model, what other requests
-- commit while this one waits for the model, the clock, and `settings.SIM_MAX_TEACHER_TURNS`.
pub record Env : Type 0 where
  pub prompts : Prompts
  pub call_structured : Call → Outcome StudentReaction
  pub meanwhile : Db → Db
  pub now : ℕ
  pub max_teacher_turns : ℕ

-- `student_utterance` for each of `enumerate(zip(personas, results))`, from a first seq on.
unfoldable pub student_rows :
    Env
    → ℕ
    → ℕ
    → ℕ
    → (Persona → Context)
    → List Persona
    → List (LlmResult StudentReaction)
    → List Utterance
student_rows env sid idx seq ctx [] results = []
student_rows env sid idx seq ctx (p ∷ ps) [] = []
student_rows env sid idx seq ctx (p ∷ ps) (r ∷ rs) =
    student_utterance env.prompts.tools sid idx seq p r (ctx p)
    ∷ student_rows env sid idx (seq + 1) ctx ps rs

-- A row that is no student's: `SimulationUtterance(...)` with the other columns null.
unfoldable pub plain_row : ℕ → ℕ → ℕ → Speaker → Option ℕ → Text → Structured → Utterance
plain_row sid idx seq speaker target content structured = record {
  id = 0;
  session_id = sid;
  phase_idx = idx;
  seq = seq;
  speaker_type = speaker;
  persona_id = none;
  target_persona_id = target;
  content = content;
  structured = some structured;
  model_name = none;
  temperature = none;
  latency_ms = none;
  created_at = 0;
}

-- `_system`
unfoldable pub system_row : Session → ℕ → Text → Event → Utterance
unfolding plain_row
system_row session seq content event =
    plain_row session.id session.current_phase_idx seq Speaker.system none content
      (Structured.event event)
