-- ===== src/Statement/Call.antt =====
-- The other calls on a statement (src/execute.c, src/handles.c).
use frostlake_odbc.Base.{
  ℕ, zero, suc, ◌+◌, Bool, true, false, Option, none, some, [], leb, if◌then◌else◌, Bytes, codes,
  length,
}
use frostlake_odbc.Base.Int.{ℤ, pos, wrap_int}
use frostlake_odbc.Response.Model.{ResultSet, Response}
use frostlake_odbc.Sql.Scanner.{count_placeholders}
use frostlake_odbc.Bind.Param.{Param}
use frostlake_odbc.Results.Convert.Model.{Return, success, no_more}
use frostlake_odbc.Statement.State.{
  Stmt, clear_results, stmt_current_set, reply, error, put_slot, unbound,
}
use frostlake_odbc.Statement.Rows.{row_count_of}

-- `input` is the type SQL_PARAM_INPUT.
unfoldable pub bind_parameter : Bool → ℕ → Param → Stmt → Stmt × Return
bind_parameter false n p s =
    reply (error (codes "HYC00") (codes "Only input parameters are supported")) s
bind_parameter true zero p s = reply (error (codes "07009") (codes "Invalid parameter number")) s
bind_parameter true (suc i) p s =
    reply success (record s { params = put_slot unbound s.params i (record p { bound = true }) })

unfoldable pub num_params : Option Bytes → ℤ
num_params none = pos 0
num_params (some sql) = wrap_int 32768 (pos (count_placeholders sql))

unfoldable pub next_set : Stmt → Stmt
next_set s =
    let moved = record s {
      current_set = s.current_set + 1;
      next_row = 0;
      getdata_col = none;
      getdata_offset = 0;
    } in
    record moved { row_count = row_count_of (stmt_current_set moved) }

unfoldable pub more_of_response : Option Response → Stmt → Stmt × Return
more_of_response none s = reply no_more s
more_of_response (some r) s =
    if leb (length r.sets) (s.current_set + 1) then reply no_more s else reply success (next_set s)

unfoldable pub more_from : Option ResultSet → Stmt → Stmt × Return
more_from (some set) s = reply no_more s
more_from none s = more_of_response s.response s

unfoldable pub more_results : Stmt → Stmt × Return
more_results s = more_from s.synth s

unfoldable pub close_cursor : Stmt → Stmt × Return
close_cursor s = reply success (clear_results s)

unfoldable pub cancel : Stmt → Stmt × Return
cancel s = reply success s

-- The options of SQLFreeStmt that keep the handle.
pub data FreeOption : Type 0 where
  close unbind reset_params other : FreeOption

unfoldable pub free_stmt : FreeOption → Stmt → Stmt × Return
free_stmt close s = reply success (clear_results s)
free_stmt unbind s = reply success (record s { bound_cols = [] })
free_stmt reset_params s = reply success (record s { params = [] })
free_stmt other s = reply (error (codes "HY092") (codes "Invalid SQLFreeStmt option")) s
