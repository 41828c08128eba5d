-- ===== src/Response.antt =====
-- The result model of src/fl_odbc.h, the type mapping of src/util.c and the decoding of src/proto.c.
pub mod Model
pub mod Types
pub mod Decode
pub mod Shape
mod Tests
