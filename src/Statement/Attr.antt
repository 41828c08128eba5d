-- ===== src/Statement/Attr.antt =====
-- SQLSetStmtAttr and SQLGetStmtAttr of src/execute.c.
use frostlake_odbc.Base.{
  ℕ, zero, suc, Bool, Option, none, some, ◌++◌, ◌==◌, if◌then◌else◌, Bytes, codes,
}
use frostlake_odbc.Base.Int.{ℤ, pos, negsuc}
use frostlake_odbc.Bind.Param.{signed_decimal}
use frostlake_odbc.Results.Convert.Model.{Return, success}
use frostlake_odbc.Statement.State.{Stmt, reply, error, warning}

-- The attributes with the values that they are set to: a SQLULEN, an SQLLEN, or whether a pointer
-- is there. `no_op` is one of those that are accepted and change nothing.
pub data SetAttr : Type 0 where
  max_rows row_array_size cursor_type cursor_scrollable concurrency : ℕ → SetAttr
  query_timeout row_bind_type retrieve_data : ℕ → SetAttr
  multi_statement_count : ℤ → SetAttr
  rows_fetched_ptr row_status_ptr : Bool → SetAttr
  no_op : SetAttr
  other : ℤ → SetAttr

-- The one value that an attribute can have, or else what is answered.
unfoldable pub only : ℕ → ℕ → Return → Stmt → Stmt × Return
only expected n otherwise s = reply (if n == expected then success else otherwise) s

unfoldable pub set_multi_statement_count : ℤ → Stmt → Stmt × Return
set_multi_statement_count (pos n) s = reply success (record s { multi_statement_count = some n })
set_multi_statement_count (negsuc zero) s =
    reply success (record s { multi_statement_count = none })
set_multi_statement_count (negsuc (suc n)) s =
    reply
      (error (codes "HY024")
        (codes "SQL_SF_STMT_ATTR_MULTI_STATEMENT_COUNT must be -1, 0, or a statement count"))
      s

abbrev pub changed : Bytes → Return
changed text = warning (codes "01S02") text

abbrev pub unsupported : Bytes → Return
unsupported text = error (codes "HYC00") text

unfoldable pub set_stmt_attr : SetAttr → Stmt → Stmt × Return
set_stmt_attr (max_rows n) s = reply success (record s { max_rows = n })
set_stmt_attr (multi_statement_count z) s = set_multi_statement_count z s
set_stmt_attr (rows_fetched_ptr b) s = reply success (record s { rows_fetched_ptr = b })
set_stmt_attr (row_status_ptr b) s = reply success (record s { row_status_ptr = b })
set_stmt_attr (row_array_size n) s =
    only 1 n
      (unsupported
        (codes "Row-wise array fetching is not supported; SQL_ATTR_ROW_ARRAY_SIZE must be 1"))
      s
set_stmt_attr (cursor_type n) s = only 0 n (changed (codes "Cursor type changed to forward-only")) s
set_stmt_attr (cursor_scrollable n) s =
    only 0 n (changed (codes "Cursor changed to non-scrollable")) s
set_stmt_attr (concurrency n) s = only 1 n (changed (codes "Concurrency changed to read-only")) s
set_stmt_attr (query_timeout n) s =
    only 0 n (changed (codes "Per-statement query timeout is not supported; changed to 0")) s
set_stmt_attr (row_bind_type n) s =
    only 0 n (unsupported (codes "Only column-wise binding is supported")) s
set_stmt_attr (retrieve_data n) s =
    only 1 n (unsupported (codes "SQL_ATTR_RETRIEVE_DATA cannot be turned off")) s
set_stmt_attr no_op s = reply success s
set_stmt_attr (other id) s =
    reply (error (codes "HY092") (codes "Unsupported statement attribute " ++ signed_decimal id)) s

pub data GetAttr : Type 0 where
  get_multi_statement_count get_cursor_type get_concurrency get_row_array_size : GetAttr
  get_row_number get_descriptor get_other : GetAttr

unfoldable pub count_or_minus_one : Option ℕ → ℤ
count_or_minus_one none = negsuc 0
count_or_minus_one (some n) = pos n

-- What is written; `none` is the statement's own handle.
unfoldable pub get_stmt_attr : GetAttr → Stmt → Option ℤ
get_stmt_attr get_multi_statement_count s = some (count_or_minus_one s.multi_statement_count)
get_stmt_attr get_cursor_type s = some (pos 0)
get_stmt_attr get_concurrency s = some (pos 1)
get_stmt_attr get_row_array_size s = some (pos 1)
get_stmt_attr get_row_number s = some (pos s.next_row)
get_stmt_attr get_descriptor s = none
get_stmt_attr get_other s = some (pos 0)
