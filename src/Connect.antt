-- ===== src/Connect.antt =====
-- src/connect.c: the connection string, the opening of a connection, and its attributes.
pub mod Info
pub mod Complete
pub mod Text
pub mod Open
pub mod Attr
pub mod Run
mod Tests
