-- ===== src/Dbc.antt =====
-- The connection handle of src/fl_odbc.h (`fl_dbc`), without its diagnostic record and its link to
-- the environment. A `char *` field that may be NULL is an option; a flag is a Boolean.
use frostlake_odbc.Base.{ℕ, Bool, true, false, Option, none, Bytes}
use frostlake_odbc.Base.Int.{ℤ, pos}

-- `tracks_sessions`: -1, 0 and 1.
pub data Support : Type 0 where
  unknown absent present : Support

pub record Dbc : Type 0 where
  pub connected : Bool
  pub host : Option Bytes
  pub port : ℕ
  pub session_id : Option Bytes
  pub database : Option Bytes
  pub schema : Option Bytes
  pub dsn : Option Bytes
  pub autocommit : Bool
  pub login_timeout : ℤ
  pub request_timeout : ℕ
  pub scope_database : Option Bytes
  pub scope_schema : Option Bytes
  pub tracks_sessions : Support
  pub session_dirty : Bool
  pub in_transaction : Bool
  pub scope_pending : Bool

-- `alloc_dbc` of src/handles.c.
unfoldable pub alloc_dbc : Dbc
alloc_dbc = record {
  connected = false;
  host = none;
  port = 18082;
  session_id = none;
  database = none;
  schema = none;
  dsn = none;
  autocommit = true;
  login_timeout = pos 10;
  request_timeout = 300;
  scope_database = none;
  scope_schema = none;
  tracks_sessions = unknown;
  session_dirty = false;
  in_transaction = false;
  scope_pending = false;
}
