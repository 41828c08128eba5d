-- ===== src/Handle.antt =====
-- The handles and their diagnostic records in src/handles.c.
pub mod Diagnostics
pub mod Environment
pub mod Store
mod Tests
