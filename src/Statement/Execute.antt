-- ===== src/Statement/Execute.antt =====
-- `run_sql` of src/execute.c and the calls over it: SQLExecDirect, SQLPrepare and SQLExecute.
pub mod Refusal
use frostlake_odbc.Base.{ℕ, Option, none, some, ◌++◌, Bytes, codes, c_string, take}
use frostlake_odbc.Dbc.{Dbc}
use frostlake_odbc.Response.Model.{Response}
use frostlake_odbc.Bind.Param.{Diag, Rendered, rendered, refused, text_of}
use frostlake_odbc.Bind.Substitute.{final_sql}
use frostlake_odbc.Bind.Context.{track_context}
use frostlake_odbc.Results.Convert.Model.{Return, success, failed}
use frostlake_odbc.Proto.Request.{decimal}
use frostlake_odbc.Proto.Server.{Server}
use frostlake_odbc.Proto.Lifecycle.{Lost}
use frostlake_odbc.Proto.Post.{Failure, transport, unparseable, lost, World}
use frostlake_odbc.Proto.Execute.{Executed, answer, failure, Run, execute_counted}
use frostlake_odbc.Statement.State.{Stmt, clear_results, stmt_current_set, set_diag, error}
use frostlake_odbc.Statement.Rows.{row_count_of}

unfoldable pub lost_text : Lost → Bytes
lost_text Lost.transaction =
    codes "the engine no longer holds this connection's session (it expired, was released, or the "
    ++ codes "server restarted), so its open transaction is gone; the statement did not run"
lost_text Lost.context =
    codes "the engine no longer holds this connection's session (it expired, was released, or the "
    ++ (codes
          "server restarted), and the context set up on it (USE, SET, ALTER SESSION or a temporary "
        ++ (codes
              "object) went with it, so the statement was not run again; the next statement starts a "
            ++ codes "fresh session on the connection's scope"))
lost_text Lost.again =
    codes "the engine refused a session it had just started; the statement did not run"

-- The text that *transport_error points at.
unfoldable pub failure_text : Failure → Bytes
failure_text (transport message) = message
failure_text (unparseable status body) =
    codes "unparseable response (HTTP " ++ (decimal status ++ (codes "): " ++ take 200 body))
failure_text (lost what) = lost_text what

-- The length is none for SQL_NTS. What reads the copy reads it up to its first NUL.
unfoldable pub copy_sql : Option ℕ → Bytes → Bytes
copy_sql length memory = c_string (text_of length memory)

-- What a successful response leaves.
unfoldable pub store_response : Response → Stmt → Stmt
store_response r s =
    let held = record s { response = some r; current_set = 0; next_row = 0 } in
    record held { row_count = row_count_of (stmt_current_set held) }

-- A statement on its connection, and the server.
pub record Handle (server : Server) : Type 0 where
  pub stmt : Stmt
  pub dbc : Dbc
  pub world : World server

module _ (server : Server) where
  abbrev pub Called : Type 0
  Called = Handle server × Return

  unfoldable pub report : Return → Stmt → Dbc → World server → Called
  report code s dbc w = (record { stmt = set_diag code s; dbc = dbc; world = w }, code)

  unfoldable pub take_response :
      Bytes → Stmt → Response → Option Bytes → Dbc → World server → Called
  take_response sql s r (some message) dbc w = report (error (codes "42000") message) s dbc w
  take_response sql s r none dbc w = report success (store_response r s) (track_context dbc sql) w

  unfoldable pub take_run : Bytes → Stmt → Run server → Called
  take_run sql s (failure what, dbc, w) = report (error (codes "08S01") (failure_text what)) s dbc w
  take_run sql s (answer r, dbc, w) = take_response sql s r r.error_message dbc w

  unfoldable pub run_sql : Handle server → Bytes → Called
  run_sql h sql =
      take_run sql (clear_results h.stmt)
        (execute_counted server sql h.stmt.multi_statement_count h.dbc h.world)

  -- A refused substitution leaves the results of the last execution. The text that it makes is
  -- passed on as a C string, which a NUL in a bound text ends.
  unfoldable pub run_rendered : Handle server → Rendered → Called
  run_rendered h (rendered sql) = run_sql h (c_string sql)
  run_rendered h (refused d) = report (failed d) h.stmt h.dbc h.world

  unfoldable pub exec_direct : Handle server → Option ℕ → Bytes → Called
  exec_direct h length memory = run_rendered h (final_sql h.stmt.params (copy_sql length memory))

  unfoldable pub execute_prepared : Handle server → Option Bytes → Called
  execute_prepared h none =
      report (error (codes "HY010") (codes "No prepared statement")) h.stmt h.dbc h.world
  execute_prepared h (some sql) = run_rendered h (final_sql h.stmt.params sql)

  unfoldable pub sql_execute : Handle server → Called
  sql_execute h = execute_prepared h h.stmt.prepared_sql

unfoldable pub prepare : Option ℕ → Bytes → Stmt → Stmt
prepare length memory s = clear_results (record s { prepared_sql = some (copy_sql length memory) })
