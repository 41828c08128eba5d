-- ===== src/Statement/Describe.antt =====
-- SQLNumResultCols and SQLDescribeCol of src/results.c, with `fl_copy_string` and `fl_type_display_size` of src/util.c.
use frostlake_odbc.Base.{
  ℕ, ◌-◌, Bool, true, false, Option, none, some, ltb, if◌then◌else◌, Bytes, codes, length, take,
  get_elem?,
}
use frostlake_odbc.Base.Int.{ℤ, pos, wrap_int}
use frostlake_odbc.Response.Model.{SqlType, Column, ResultSet}
use frostlake_odbc.Response.Types.{display_size, decimal_digits}
use frostlake_odbc.Results.Convert.Model.{Return, usable, truncated}
use frostlake_odbc.Statement.State.{Stmt, stmt_current_set, set_diag, error}
use frostlake_odbc.Statement.Cursor.{column_index}

-- The return code, what is written into the buffer in front of the NUL, and the length that is
-- written out, as SQLSMALLINT.
pub record Copied : Type 0 where
  pub code : Return
  pub text : Option Bytes
  pub length : ℤ

unfoldable pub copy_into : Bytes → Option ℕ → Option Bytes × Bool
copy_into text none = (none, false)
copy_into text (some n) =
    if ltb (length text) n then (some text, false) else (some (take (n - 1) text), true)

unfoldable pub copy_string : Bytes → Bool → ℤ → Copied
copy_string text present size =
    let (stored, cut) = copy_into text (usable present size) in
    record { code = truncated cut; text = stored; length = wrap_int 32768 (pos (length text)) }

unfoldable pub type_name_of : Option Bytes → Bytes
type_name_of none = codes "VARCHAR"
type_name_of (some name) = name

unfoldable pub num_result_cols : Option ResultSet → ℤ
num_result_cols none = pos 0
num_result_cols (some set) = wrap_int 32768 (pos set.column_count)

-- `column_at`, with the cast to SQLUSMALLINT.
unfoldable pub column_of : ResultSet → Option ℕ → Option Column
column_of set none = none
column_of set (some i) = get_elem? set.columns i

unfoldable pub column_at : Option ResultSet → ℕ → Option Column
column_at none number = none
column_at (some set) number = column_of set (column_index set number)

-- What SQLDescribeCol writes.
pub record Description : Type 0 where
  pub name : Copied
  pub sql_type : SqlType
  pub size : ℕ
  pub decimals : ℤ

unfoldable pub describe : Bool → ℤ → Column → Description
describe present size c = record {
  name = copy_string c.name present size;
  sql_type = c.sql_type;
  size = display_size c;
  decimals = decimal_digits c;
}

unfoldable pub describe_found : Bool → ℤ → Stmt → Option Column → Stmt × Return × Option Description
describe_found present size s none =
    let code = error (codes "07009") (codes "Invalid column number") in
    (set_diag code s, code, none)
describe_found present size s (some c) =
    let found = describe present size c in (set_diag found.name.code s, found.name.code, some found)

unfoldable pub describe_col : ℕ → Bool → ℤ → Stmt → Stmt × Return × Option Description
describe_col number present size s =
    describe_found present size s (column_at (stmt_current_set s) number)
