-- ===== src/Statement/Field.antt =====
-- SQLColAttribute of src/results.c.
use frostlake_odbc.Base.{
  ℕ, Bool, true, false, Option, none, some, [], ◌∷◌, Bytes, codes, if◌then◌else◌,
}
use frostlake_odbc.Base.Int.{ℤ, pos, negsuc}
use frostlake_odbc.Response.Model.{
  SqlType, varchar, bigint, decimal, integer, smallint, tinyint, double, bit, type_date, type_time,
  type_timestamp, varbinary, Column, ResultSet,
}
use frostlake_odbc.Response.Types.{display_size, decimal_digits}
use frostlake_odbc.Results.Convert.Model.{Return, success}
use frostlake_odbc.Statement.State.{Stmt, stmt_current_set, set_diag, error}
use frostlake_odbc.Statement.Describe.{Copied, copy_string, type_name_of, column_at}

-- The field identifiers, by what they answer.
pub data Field : Type 0 where
  count name type_name no_text verbose_type concise_type size scale nullable is_false : Field
  searchable updatable unnamed radix other : Field

pub data Answered : Type 0 where
  text : Copied → Answered
  number : ℤ → Answered

-- The codes of sql.h.
unfoldable pub type_code : SqlType → ℤ
type_code varchar = pos 12
type_code bigint = negsuc 4
type_code decimal = pos 3
type_code integer = pos 4
type_code smallint = pos 5
type_code tinyint = negsuc 5
type_code double = pos 8
type_code bit = negsuc 6
type_code type_date = pos 91
type_code type_time = pos 92
type_code type_timestamp = pos 93
type_code varbinary = negsuc 2

unfoldable pub verbose_code : SqlType → ℤ
verbose_code type_date = pos 9
verbose_code type_time = pos 9
verbose_code type_timestamp = pos 9
verbose_code sql = type_code sql

unfoldable pub radix_of : SqlType → ℤ
radix_of double = pos 2
radix_of decimal = pos 10
radix_of bigint = pos 10
radix_of integer = pos 10
radix_of _ = pos 0

unfoldable pub is_unnamed : Bytes → ℤ
is_unnamed [] = pos 1
is_unnamed (c ∷ s) = pos 0

-- The switch, for a column; the name is never NULL there.
unfoldable pub field_of : Field → Bool → ℤ → ResultSet → Column → Answered
field_of count present n set c = number (pos set.column_count)
field_of name present n set c = text (copy_string c.name present n)
field_of type_name present n set c = text (copy_string (type_name_of c.type_name) present n)
field_of no_text present n set c = text (copy_string [] present n)
field_of verbose_type present n set c = number (verbose_code c.sql_type)
field_of concise_type present n set c = number (type_code c.sql_type)
field_of size present n set c = number (pos (display_size c))
field_of scale present n set c = number (decimal_digits c)
field_of nullable present n set c = number (pos 2)
field_of is_false present n set c = number (pos 0)
field_of searchable present n set c = number (pos 3)
field_of updatable present n set c = number (pos 0)
field_of unnamed present n set c = number (is_unnamed c.name)
field_of radix present n set c = number (radix_of c.sql_type)
field_of other present n set c = number (pos 0)

unfoldable pub code_of : Answered → Return
code_of (text copied) = copied.code
code_of (number n) = success

unfoldable pub attribute_found :
    Field → Bool → ℤ → Stmt → ResultSet → Option Column → Stmt × Return × Option Answered
attribute_found field present n s set none =
    let code = error (codes "07009") (codes "Invalid column number") in
    (set_diag code s, code, none)
attribute_found field present n s set (some c) =
    let found = field_of field present n set c in
    (set_diag (code_of found) s, code_of found, some found)

unfoldable pub is_count : Field → Bool
is_count count = true
is_count _ = false

unfoldable pub attribute_at :
    Field → ℕ → Bool → ℤ → Stmt → Option ResultSet → Stmt × Return × Option Answered
attribute_at field number_of present n s none =
    let code = error (codes "07009") (codes "Invalid column number") in
    (set_diag code s, code, none)
attribute_at field number_of present n s (some set) =
    attribute_found field present n s set (column_at (some set) number_of)

unfoldable pub column_count_of : Option ResultSet → ℕ
column_count_of none = 0
column_count_of (some set) = set.column_count

-- The count of the columns is answered in front of the check of the column's number.
unfoldable pub attribute_from :
    Field → ℕ → Bool → ℤ → Stmt → Option ResultSet → Stmt × Return × Option Answered
attribute_from field number_of present n s o =
    if is_count field
    then (set_diag success s, success, some (number (pos (column_count_of o))))
    else attribute_at field number_of present n s o

unfoldable pub col_attribute : ℕ → Field → Bool → ℤ → Stmt → Stmt × Return × Option Answered
col_attribute number_of field present n s =
    attribute_from field number_of present n s (stmt_current_set s)
