-- ===== src/Sim/Session/Feedback.antt =====
-- The end of `generate` of app/services/simulation/feedback.py: the write of a feedback that the model
-- has given into its session's row.
use elp_gemini.Base.{Text, ℕ, ◌&&◌, ◌==◌, Bool, not, Option, some, any, is_some, if◌then◌else◌}
use elp_gemini.Sim.Model.{Session}
use elp_gemini.Sim.Store.{Db, update_session}

-- The envelope, the path of the saved report and the version of the guideline, if one was enabled.
pub record Saved : Type 0 where
  pub envelope : Text
  pub file_path : Text
  pub version : Option ℕ

-- The values of the UPDATE where `feedback_json` is null.
unfoldable pub store_feedback : Saved → Session → Session
store_feedback saved s = if is_some s.feedback_json then s else record s {
  feedback_json = some saved.envelope;
  feedback_report_path = some saved.file_path;
  feedback_guideline_version = saved.version;
}

-- Whether a row was written; if none was, another request has been faster and its feedback stays.
unfoldable pub save_feedback : ℕ → Saved → Db → Bool × Db
unfolding store_feedback
save_feedback sid saved db = (
  any (λ s. s.id == sid && not (is_some s.feedback_json)) db.sessions,
  record db { sessions = update_session sid (store_feedback saved) db.sessions },
)
