-- ===== src/Response/Model.antt =====
-- Cells, columns and result sets (`fl_cell`, `fl_column`, `fl_resultset`, `fl_response`).
use frostlake_odbc.Base.{ℕ, Bool, Option, List, Bytes}
use frostlake_odbc.Base.Int.{ℤ}

-- The SQL_* types that the driver reports.
pub data SqlType : Type 0 where
  varchar bigint decimal integer smallint tinyint double bit : SqlType
  type_date type_time type_timestamp varbinary : SqlType

-- 's', 'n' and 'b'.
pub data Kind : Type 0 where
  text number boolean : Kind

pub record Cell : Type 0 where
  pub text : Option Bytes
  pub kind : Kind
  pub is_null : Bool

pub record Column : Type 0 where
  pub name : Bytes
  pub type_name : Option Bytes
  pub sql_type : SqlType
  pub precision : ℤ
  pub scale : ℤ
  pub length : ℤ

-- The cells stand row by row: row * column_count + col.
pub record ResultSet : Type 0 where
  pub columns : List Column
  pub column_count : ℕ
  pub cells : List Cell
  pub row_count : ℕ

-- An error message means that the statement failed.
pub record Response : Type 0 where
  pub sets : List ResultSet
  pub session_id : Option Bytes
  pub error_message : Option Bytes
