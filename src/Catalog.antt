-- ===== src/Catalog.antt =====
-- The catalog functions of src/catalog.c: each answers a result set that the driver puts together.
pub mod Synth
pub mod Query
pub mod TypeList
pub mod Tables
pub mod Columns
pub mod Types
pub mod Call
pub mod Outcome
pub mod Listing
mod Tests
