-- ===== src/Connect/Open.antt =====
-- `do_connect`, SQLConnect, SQLDriverConnect and SQLDisconnect of src/connect.c.
pub mod Outcome
pub mod Logins
use frostlake_odbc.Base.{
  ℕ, Bool, true, false, not, Option, none, some, [], ◌∷◌, ◌++◌, ◌==◌, if◌then◌else◌, Bytes, codes,
  c_string, take,
}
use frostlake_odbc.Base.Int.{ℤ}
use frostlake_odbc.Sql.Ident.{append_ident}
use frostlake_odbc.Dbc.{Dbc}
use frostlake_odbc.Bind.Param.{text_of}
use frostlake_odbc.Results.Convert.Model.{Return, success}
use frostlake_odbc.Proto.Request.{decimal}
use frostlake_odbc.Proto.Server.{Server, Answer, failed, answered}
use frostlake_odbc.Proto.Lifecycle.{session_reset}
use frostlake_odbc.Proto.Post.{World}
use frostlake_odbc.Proto.Execute.{Executed, answer, failure, Run, execute_as}
use frostlake_odbc.Proto.Release.{release}
use frostlake_odbc.Statement.State.{error}
use frostlake_odbc.Statement.Execute.{failure_text}
use frostlake_odbc.Connect.Text.{conn_str_get, parse_port}

-- A name that is there and not empty.
unfoldable pub named : Option Bytes → Option Bytes
named none = none
named (some []) = none
named (some (c ∷ name)) = some (c ∷ name)

unfoldable pub or_localhost : Option Bytes → Bytes
or_localhost none = codes "localhost"
or_localhost (some host) = host

unfoldable pub server_at : Dbc → Bytes
server_at dbc =
    codes "Frostlake server at " ++ (or_localhost dbc.host ++ (codes ":" ++ decimal dbc.port))

-- The first fields that are set once the server has answered.
unfoldable pub opened : Option Bytes → Option Bytes → Dbc → Dbc
opened database schema dbc = record (session_reset (record dbc { connected = true })) {
  scope_database = named database;
  scope_schema = named schema;
}

unfoldable pub with_database : Bytes → Dbc → Dbc
with_database name dbc = record dbc { database = some name }

unfoldable pub with_schema : Bytes → Dbc → Dbc
with_schema name dbc = record dbc { schema = some name }

unfoldable pub closed : Dbc → Dbc
closed dbc = record dbc { connected = false }

-- `dsn_get`: the entry of odbc.ini that the driver manager's library answers, in 512 bytes.
unfoldable pub dsn_get : (Bytes → Bytes → Bytes) → Bytes → Bytes → Option Bytes
dsn_get ini dsn key = named (some (c_string (take 511 (ini dsn key))))

unfoldable pub or_else : Option Bytes → Option Bytes → Option Bytes
or_else none other = other
or_else (some text) other = some text

-- `health` is fl_http_get on /api/health: the host, the port and the time limit.
module _ (server : Server) (health : server.State → Bytes → ℕ → ℤ → Answer × server.State) where
  abbrev pub Opened : Type 0
  Opened = Return × Dbc × World server

  -- A failure hands back the session that was started.
  unfoldable pub give_up : Return → Dbc → World server → Opened
  give_up code dbc w = let left = release server (closed dbc) w in (code, left.0, left.1)

  unfoldable pub judge :
      Bytes → (Dbc → World server → Opened) → Option Bytes → Dbc → World server → Opened
  judge refused next (some message) dbc w = give_up (error refused message) dbc w
  judge refused next none dbc w = next dbc w

  -- What one statement of the scope answered; the two codes are for no answer and for a refusal.
  unfoldable pub after_use : Bytes → Bytes → (Dbc → World server → Opened) → Run server → Opened
  after_use unanswered refused next (failure what, dbc, w) =
      give_up (error unanswered (failure_text what)) dbc w
  after_use unanswered refused next (answer r, dbc, w) = judge refused next r.error_message dbc w

  -- These statements are not tracked, and do not recover.
  unfoldable pub send_use :
      Bytes → Bytes → (Dbc → World server → Opened) → Bytes → Dbc → World server → Opened
  send_use unanswered refused next sql dbc w =
      after_use unanswered refused next (execute_as server false false sql none dbc w)

  unfoldable pub built :
      Bytes → Bytes → (Dbc → World server → Opened) → Option Bytes → Dbc → World server → Opened
  built unanswered refused next none dbc w =
      (error (codes "HY001") (codes "Out of memory"), closed dbc, w)
  built unanswered refused next (some sql) dbc w = send_use unanswered refused next sql dbc w

  unfoldable pub set_commit : Dbc → World server → Opened
  set_commit dbc w =
      if dbc.autocommit
      then (success, dbc, w)
      else send_use (codes "08001") (codes "08004") (λ dbc' w'. (success, dbc', w'))
          (codes "ALTER SESSION SET AUTOCOMMIT = FALSE") dbc w

  unfoldable pub use_schema : Option Bytes → Dbc → World server → Opened
  use_schema none dbc w = set_commit dbc w
  use_schema (some name) dbc w =
      built (codes "08004") (codes "08004") (λ dbc' w'. set_commit (with_schema name dbc') w')
        (append_ident (codes "USE SCHEMA ") name) dbc w

  unfoldable pub use_database : Option Bytes → Option Bytes → Dbc → World server → Opened
  use_database none schema dbc w = use_schema schema dbc w
  use_database (some name) schema dbc w =
      built (codes "08001") (codes "08004")
        (λ dbc' w'. use_schema schema (with_database name dbc') w')
        (append_ident (codes "USE DATABASE ") name) dbc w

  -- The health probe's answer.
  unfoldable pub after_probe : Option Bytes → Option Bytes → Dbc → World server → Answer → Opened
  after_probe database schema dbc w (failed message) = (
    error (codes "08001")
        (codes "Cannot reach " ++ (server_at dbc ++ (codes " (" ++ (message ++ codes ")")))),
    dbc,
    w,
  )
  after_probe database schema dbc w (answered status body) =
      if status == 200
      then use_database (named database) (named schema) (opened database schema dbc) w
      else (
        error (codes "08001") (
            server_at dbc
            ++ (codes " answered HTTP " ++ (decimal status ++ codes " to the health probe"))),
        dbc,
        w,
      )

  unfoldable pub do_connect : Option Bytes → Option Bytes → Dbc → World server → Opened
  do_connect database schema dbc w =
      let ready = record dbc { host = some (or_localhost dbc.host) } in
      let reply = health w.state (or_localhost dbc.host) dbc.port dbc.login_timeout in
      after_probe database schema ready (record w { state = reply.1 }) reply.0

  unfoldable pub at_port :
      Bytes → Bytes → Option Bytes → Option Bytes → Dbc → World server → Option ℕ → Opened
  at_port complaint text database schema dbc w none =
      (error (codes "HY000") (complaint ++ (text ++ codes "'")), dbc, w)
  at_port complaint text database schema dbc w (some port) =
      do_connect database schema (record dbc { port = port }) w

  -- The attributes that were found; a port that is not given is the handle's.
  unfoldable pub connect_with :
      Bytes
      → Option Bytes
      → Option Bytes
      → Option Bytes
      → Option Bytes
      → Dbc
      → World server
      → Opened
  connect_with complaint host none database schema dbc w =
      do_connect database schema (record dbc { host = some (or_localhost host) }) w
  connect_with complaint host (some text) database schema dbc w =
      at_port complaint text database schema (record dbc { host = some (or_localhost host) }) w
        (parse_port text)

  unfoldable pub already_open : Dbc → World server → Opened
  already_open dbc w = (error (codes "08002") (codes "Connection already open"), dbc, w)

  unfoldable pub sql_connect :
      (Bytes → Bytes → Bytes) → Option ℕ → Bytes → Dbc → World server → Opened
  sql_connect ini length memory dbc w =
      if dbc.connected
      then already_open dbc w
      else (let dsn = c_string (take 255 (text_of length memory)) in
          connect_with (codes "DSN attribute Port must be a number from 1 to 65535, got '")
            (dsn_get ini dsn (codes "Server")) (dsn_get ini dsn (codes "Port"))
            (dsn_get ini dsn (codes "Database")) (dsn_get ini dsn (codes "Schema"))
            (record dbc { dsn = some dsn }) w)

  -- A key of the connection string, or else of the data source that the string names.
  unfoldable pub key_of : (Bytes → Bytes → Bytes) → Bytes → Option Bytes → Bytes → Option Bytes
  key_of ini conn none key = conn_str_get conn key
  key_of ini conn (some dsn) key = or_else (conn_str_get conn key) (dsn_get ini dsn key)

  unfoldable pub driver_connect :
      (Bytes → Bytes → Bytes) → Option ℕ → Bytes → Dbc → World server → Opened
  driver_connect ini length memory dbc w =
      if dbc.connected
      then already_open dbc w
      else (let conn = c_string (take 2047 (text_of length memory)) in
          let dsn = conn_str_get conn (codes "DSN") in
          connect_with (codes "Port must be a number from 1 to 65535, got '")
            (key_of ini conn dsn (codes "Server")) (key_of ini conn dsn (codes "Port"))
            (key_of ini conn dsn (codes "Database")) (key_of ini conn dsn (codes "Schema"))
            (record dbc { dsn = or_else dsn dbc.dsn }) w)

  unfoldable pub disconnect : Dbc → World server → Opened
  disconnect dbc w =
      if dbc.connected
      then give_up success dbc w
      else (error (codes "08003") (codes "Connection not open"), dbc, w)
