-- ===== src/Sql.antt =====
-- The parts of src/execute.c and src/util.c that read and write SQL text.
pub mod Scanner
pub mod Literal
pub mod Ident
mod Tests
