-- ===== src/Statement/Run.antt =====
-- Any sequence of calls on a statement, in the order in which the application makes them.
pub mod Sound
pub mod Keeps
pub mod Replies
pub mod Steps
pub mod Reach
pub mod Within
use frostlake_odbc.Base.{ℕ, Bool, Option, none, some, List, [], ◌∷◌, Bytes}
use frostlake_odbc.Base.Int.{ℤ}
use frostlake_odbc.Bind.Param.{Param}
use frostlake_odbc.Results.Convert.Model.{CType, Buffer, Return, success, Conversion}
use frostlake_odbc.Proto.Server.{Server}
use frostlake_odbc.Statement.State.{Stmt, set_diag}
use frostlake_odbc.Statement.Execute.{Handle, Called, exec_direct, prepare, sql_execute}
use frostlake_odbc.Statement.Cursor.{Fetched, bind_col, fetch, fetch_scroll, get_data}
use frostlake_odbc.Statement.Describe.{Description, describe_col}
use frostlake_odbc.Statement.Field.{Field, Answered, col_attribute}
use frostlake_odbc.Statement.Attr.{SetAttr, set_stmt_attr}
use frostlake_odbc.Catalog.Call.{CatalogCall, catalog_call}
use frostlake_odbc.Statement.Call.{
  FreeOption, bind_parameter, more_results, close_cursor, cancel, free_stmt,
}

-- A call with its arguments. Those that only read and clear the diagnostic record (SQLRowCount,
-- SQLNumParams, SQLNumResultCols, SQLGetStmtAttr) are `look`.
pub data Call : Type 0 where
  to_exec_direct to_prepare : Option ℕ → Bytes → Call
  to_execute look to_fetch to_more_results to_close_cursor to_cancel : Call
  to_bind_parameter : Bool → ℕ → Param → Call
  to_bind_col to_get_data : ℕ → CType → Buffer → Call
  to_fetch_scroll : Bool → Call
  to_describe_col : ℕ → Bool → ℤ → Call
  to_col_attribute : ℕ → Field → Bool → ℤ → Call
  to_free_stmt : FreeOption → Call
  to_set_stmt_attr : SetAttr → Call
  to_catalog : CatalogCall → Call

unfoldable pub after_fetch : Option (Stmt × Return × Fetched) → Option Stmt
after_fetch none = none
after_fetch (some (s, code, fetched)) = some s

unfoldable pub after_data : Option (Stmt × Conversion) → Option Stmt
after_data none = none
after_data (some (s, conversion)) = some s

-- What a call that does not reach the server leaves; none is an access out of bounds.
unfoldable pub local : Call → Stmt → Option Stmt
local (to_exec_direct n text) s = some s
local (to_prepare n text) s = some (set_diag success (prepare n text s))
local to_execute s = some s
local look s = some (set_diag success s)
local to_fetch s = after_fetch (fetch s)
local to_more_results s = some (more_results s).0
local to_close_cursor s = some (close_cursor s).0
local to_cancel s = some (cancel s).0
local (to_bind_parameter input n p) s = some (bind_parameter input n p s).0
local (to_bind_col n c b) s = some (bind_col n c b s).0
local (to_get_data n c b) s = after_data (get_data n c b s)
local (to_fetch_scroll next) s = after_fetch (fetch_scroll next s)
local (to_describe_col n present size) s = some (describe_col n present size s).0
local (to_col_attribute n field present size) s = some (col_attribute n field present size s).0
local (to_free_stmt option) s = some (free_stmt option s).0
local (to_set_stmt_attr attr) s = some (set_stmt_attr attr s).0
local (to_catalog call) s = some s

module _ (server : Server) where
  unfoldable pub put_stmt : Handle server → Option Stmt → Option (Handle server)
  put_stmt h none = none
  put_stmt h (some s) = some (record h { stmt = s })

  unfoldable pub after_call : Option (Called server) → Option (Handle server)
  after_call none = none
  after_call (some (h, code)) = some h

  unfoldable pub step : Handle server → Call → Option (Handle server)
  step h (to_exec_direct n text) = some (exec_direct server h n text).0
  step h to_execute = some (sql_execute server h).0
  step h (to_catalog call) = after_call (catalog_call server h call)
  step h call = put_stmt h (local call h.stmt)

  unfoldable pub then_run :
      (Handle server → Option (Handle server)) → Option (Handle server) → Option (Handle server)
  then_run next none = none
  then_run next (some h) = next h

  unfoldable pub run : Handle server → List Call → Option (Handle server)
  run h [] = some h
  run h (call ∷ calls) = then_run (λ h'. run h' calls) (step h call)
