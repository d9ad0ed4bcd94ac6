-- ===== src/Sim/Session.antt =====
-- The requests on a running session (app/services/simulation/session_service.py): entering a
-- scene, speaking, moving on, finishing, and asking again for an answer that could not be read; and
-- the write of a finished session's feedback (feedback.py).
pub mod Replies
pub mod Rows
pub mod Enter
pub mod Say
pub mod Move
pub mod Again
pub mod Feedback
