-- ===== src/Json.antt =====
-- src/json.c: the growable buffer, the string codec, the reader and the lookups.
pub mod Buffer
pub mod Text
pub mod Value
pub mod Reader
pub mod Printer
mod Tests
