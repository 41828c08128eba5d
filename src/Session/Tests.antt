-- ===== src/Session/Tests.antt =====
-- Runs of the session's notes at concrete statements.
use frostlake_odbc.Base.{Bytes, codes, false}
use frostlake_odbc.Dbc.{Dbc, alloc_dbc}

abbrev manual : Dbc
manual = record alloc_dbc { autocommit = false }

abbrev two : Bytes
two = codes "COMMIT; USE SCHEMA s"
