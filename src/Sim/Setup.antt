-- ===== src/Sim/Setup.antt =====
-- What surrounds the requests of a session: the limit on students, the user's own personas, and the
-- list of sessions.
pub mod Limit
pub mod Library
pub mod Names
pub mod Adapt
pub mod Listing
pub mod Scenes
pub mod Choose
pub mod Create
pub mod Tests
