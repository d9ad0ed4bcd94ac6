-- ===== src/Sim/Session/Replies.antt =====
-- The replies of the session requests: `_utterance_out` and `_turn_result`.
use elp_gemini.Base.{Text, ℕ, Bool, ◌&&◌, not, Option, List, map, is_some, filter}
use elp_gemini.Sim.Model.{Session, Speaker, Structured, Utterance, is_student}
use elp_gemini.Sim.Agreement.{Agreement}
use elp_gemini.Sim.Store.{Db, agreement, teacher_turns_used}

-- The reply's row, without the session's id; `created_at` is printed by the client's formatter.
pub record UtteranceOut : Type 0 where
  pub id : ℕ
  pub seq : ℕ
  pub phase_idx : ℕ
  pub speaker_type : Speaker
  pub persona_id : Option ℕ
  pub target_persona_id : Option ℕ
  pub content : Text
  pub structured : Option Structured
  pub failed : Bool
  pub model_name : Option Text
  pub latency_ms : Option ℕ
  pub created_at : ℕ

abbrev pub is_failed : Utterance → Bool
is_failed u = is_student u.speaker_type && not (is_some u.structured)

unfoldable pub utterance_out : Utterance → UtteranceOut
utterance_out u = record {
  id = u.id;
  seq = u.seq;
  phase_idx = u.phase_idx;
  speaker_type = u.speaker_type;
  persona_id = u.persona_id;
  target_persona_id = u.target_persona_id;
  content = u.content;
  structured = u.structured;
  failed = is_failed u;
  model_name = u.model_name;
  latency_ms = u.latency_ms;
  created_at = u.created_at;
}

pub record TurnResult : Type 0 where
  pub utterances : List UtteranceOut
  pub failed_persona_ids : List (Option ℕ)
  pub agreement : Agreement
  pub teacher_turns_used : ℕ

-- The rows are those of the tables. (A row that the request had loaded before stays in the service as
-- it was loaded, where the tables have changed meanwhile.)
unfoldable pub turn_result : Db → Session → List Utterance → TurnResult
unfolding utterance_out
turn_result db session us = record {
  utterances = map utterance_out us;
  failed_persona_ids = map (λ u. u.persona_id) (filter is_failed us);
  agreement = agreement db session;
  teacher_turns_used = teacher_turns_used db session.id;
}
