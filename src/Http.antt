-- ===== src/Http.antt =====
-- src/http.c: the head of a request, the header lookup, and the body of a response.
pub mod Header
pub mod Chunked
pub mod Response
mod Tests
