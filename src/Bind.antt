-- ===== src/Bind.antt =====
-- Parameter binding of src/execute.c: one literal, and the substitution of a statement's markers.
pub mod Param
pub mod Substitute
pub mod Context
mod Tests
