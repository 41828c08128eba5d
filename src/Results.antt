-- ===== src/Results.antt =====
-- src/results.c: what SQLGetData delivers of a cell.
pub mod Chunk
pub mod Integer
pub mod Temporal
pub mod Convert
mod Tests
