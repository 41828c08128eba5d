-- ===== src/Statement.antt =====
-- The statement handle: src/execute.c, src/handles.c, and the cursor of src/results.c.
pub mod State
pub mod Rows
pub mod Execute
pub mod Cursor
pub mod Describe
pub mod Field
pub mod Attr
pub mod Call
pub mod Run
mod Tests
