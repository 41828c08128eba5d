-- ===== src/Proto.antt =====
-- src/proto.c: the request, the answer, and the session's recovery and release.
pub mod Request
pub mod Server
pub mod Lifecycle
pub mod Post
pub mod Scope
pub mod Execute
pub mod Release
mod Tests
