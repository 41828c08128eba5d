-- ===== src/Session.antt =====
-- src/session.c: what a statement leaves on the engine's session.
pub mod Words
pub mod Effect
pub mod Note
mod Tests
