-- ===== src/Sim.antt =====
-- The lesson simulation (app/services/simulation): a teacher plays the scenes of a lesson plan
-- before students that a language model plays.
pub mod Errors
pub mod Model
pub mod Gemini
pub mod Agreement
pub mod Reaction
pub mod Prompt
pub mod Store
pub mod Session
pub mod Run
pub mod Setup
pub mod Guidelines
pub mod Tests
