-- ===== src/Catalog/Columns.antt =====
-- SQLColumns of src/catalog.c.
pub mod Meaning
use frostlake_odbc.Base.{
  ℕ, ◌+◌, Bool, true, Option, none, some, List, [], ◌∷◌, ◌++◌, if◌then◌else◌, Bytes, codes, ltb,
}
use frostlake_odbc.Base.Int.{ℤ, pos, is_zero, wrap_int}
use frostlake_odbc.Response.Model.{
  SqlType, varchar, integer, smallint, double, type_date, type_time, type_timestamp, Column,
  ResultSet,
}
use frostlake_odbc.Response.Types.{equal_ignoring_case, sql_type_for, display_size}
use frostlake_odbc.Response.Decode.{or_empty, strtol, half_int}
use frostlake_odbc.Proto.Server.{Server}
use frostlake_odbc.Statement.Execute.{Handle, Called}
use frostlake_odbc.Statement.Field.{type_code}
use frostlake_odbc.Catalog.Synth.{Entry, of_text, of_int, of_null, synth_new, fill}
use frostlake_odbc.Catalog.Query.{
  Arg, arg_to_string, append_catalog, like_unless_all, run_catalog_query, cell_text, column_index,
}
use frostlake_odbc.Catalog.Tables.{text_or_null, rebuild}

-- COLUMNS_COLUMNS, with the type that the loop gives.
abbrev pub columns_columns : List (Bytes × SqlType)
columns_columns =
    (codes "TABLE_CAT", varchar)
    ∷ (codes "TABLE_SCHEM", varchar)
    ∷ (codes "TABLE_NAME", varchar)
    ∷ (codes "COLUMN_NAME", varchar)
    ∷ (codes "DATA_TYPE", smallint)
    ∷ (codes "TYPE_NAME", varchar)
    ∷ (codes "COLUMN_SIZE", integer)
    ∷ (codes "BUFFER_LENGTH", integer)
    ∷ (codes "DECIMAL_DIGITS", integer)
    ∷ (codes "NUM_PREC_RADIX", integer)
    ∷ (codes "NULLABLE", smallint)
    ∷ (codes "REMARKS", varchar)
    ∷ (codes "COLUMN_DEF", varchar)
    ∷ (codes "SQL_DATA_TYPE", smallint)
    ∷ (codes "SQL_DATETIME_SUB", smallint)
    ∷ (codes "CHAR_OCTET_LENGTH", integer)
    ∷ (codes "ORDINAL_POSITION", integer)
    ∷ (codes "IS_NULLABLE", varchar)
    ∷ []

pub record ColumnsArgs : Type 0 where
  pub catalog : Option Bytes
  pub schema : Option Bytes
  pub table : Option Bytes
  pub column : Option Bytes

unfoldable pub columns_sql : ColumnsArgs → Bytes
columns_sql args =
    let start =
      codes "SELECT table_catalog, table_schema, table_name, column_name, data_type,"
      ++ codes " character_maximum_length, numeric_precision, numeric_scale, is_nullable,"
      ++ codes " ordinal_position, column_default FROM " in
    let from = append_catalog start args.catalog ++ codes "information_schema.columns WHERE 1=1" in
    let in_schema = like_unless_all from (codes "table_schema") args.schema in
    let in_table = like_unless_all in_schema (codes "table_name") args.table in
    like_unless_all in_table (codes "column_name") args.column
    ++ codes " ORDER BY table_schema, table_name, ordinal_position"

unfoldable pub long_or_zero : Option Bytes → ℤ
long_or_zero none = pos 0
long_or_zero (some text) = strtol text

-- The maximum length, or else the precision, or else 0.
unfoldable pub stated_size : Option Bytes → Option Bytes → ℤ
stated_size none precision = long_or_zero precision
stated_size (some charlen) precision = strtol charlen

-- `probe`, which is all zero but for its type.
unfoldable pub probe : SqlType → Column
probe type = record {
  name = [];
  type_name = none;
  sql_type = type;
  precision = pos 0;
  scale = pos 0;
  length = pos 0;
}

unfoldable pub size_or_default : SqlType → ℤ → ℤ
size_or_default type size = if is_zero size then pos (display_size (probe type)) else size

unfoldable pub is_nullable : Option Bytes → Bool
is_nullable none = true
is_nullable (some text) = equal_ignoring_case (codes "YES") text

unfoldable pub int_if_given : Option Bytes → ℤ → Entry
int_if_given none z = of_null
int_if_given (some text) z = of_int z

unfoldable pub radix : SqlType → ℤ
radix double = pos 2
radix _ = pos 10

-- SQL_DATETIME is 9.
unfoldable pub verbose_type : SqlType → ℤ
verbose_type type_date = pos 9
verbose_type type_time = pos 9
verbose_type type_timestamp = pos 9
verbose_type type = type_code type

-- SQL_CODE_DATE is 1, SQL_CODE_TIME 2, SQL_CODE_TIMESTAMP 3.
unfoldable pub datetime_sub : SqlType → Entry
datetime_sub type_date = of_int (pos 1)
datetime_sub type_time = of_int (pos 2)
datetime_sub type_timestamp = of_int (pos 3)
datetime_sub _ = of_null

unfoldable pub type_name_or : Option Bytes → Bytes
type_name_or none = codes "VARCHAR"
type_name_or (some name) = name

unfoldable pub position_or : Option Bytes → ℕ → ℤ
position_or none row = pos (row + 1)
position_or (some text) row = strtol text

-- The texts of one row of the listing.
unfoldable pub named_text : ResultSet → ℕ → Bytes → Option Bytes
named_text answer r name = cell_text answer r (column_index answer name)

-- What one row of the listing says of a column.
pub record ColumnFacts : Type 0 where
  pub sql_type : SqlType
  pub size : ℤ
  pub nullable : Bool

unfoldable pub facts : ResultSet → ℕ → ColumnFacts
facts answer r =
    let scale = wrap_int half_int (long_or_zero (named_text answer r (codes "numeric_scale"))) in
    let type = sql_type_for (named_text answer r (codes "data_type")) scale in
    record {
      sql_type = type;
      size = size_or_default type (
          stated_size (named_text answer r (codes "character_maximum_length"))
            (named_text answer r (codes "numeric_precision")));
      nullable = is_nullable (named_text answer r (codes "is_nullable"));
    }

unfoldable pub column_entries : ResultSet → ℕ → ℕ → ColumnFacts → List Entry
column_entries answer r row f =
    text_or_null (named_text answer r (codes "table_catalog"))
    ∷ text_or_null (named_text answer r (codes "table_schema"))
    ∷ of_text (or_empty (named_text answer r (codes "table_name")))
    ∷ of_text (or_empty (named_text answer r (codes "column_name")))
    ∷ of_int (type_code f.sql_type)
    ∷ of_text (type_name_or (named_text answer r (codes "data_type")))
    ∷ of_int f.size
    ∷ of_int f.size
    ∷ int_if_given (named_text answer r (codes "numeric_scale"))
        (long_or_zero (named_text answer r (codes "numeric_scale")))
    ∷ of_int (radix f.sql_type)
    ∷ of_int (pos (if f.nullable then 1 else 0))
    ∷ of_null
    ∷ text_or_null (named_text answer r (codes "column_default"))
    ∷ of_int (verbose_type f.sql_type)
    ∷ datetime_sub f.sql_type
    ∷ of_int f.size
    ∷ of_int (position_or (named_text answer r (codes "ordinal_position")) row)
    ∷ of_text (if f.nullable then codes "YES" else codes "NO")
    ∷ []

unfoldable pub list_columns : ResultSet → Option ResultSet
list_columns answer =
    fill (λ r row. some (column_entries answer r row (facts answer r))) 0 answer.row_count
      (synth_new columns_columns (if ltb 0 answer.row_count then answer.row_count else 1))

module _ (server : Server) where
  unfoldable pub columns_of : Handle server → ColumnsArgs → Option (Called server)
  columns_of h args =
      rebuild server list_columns h.stmt (run_catalog_query server (columns_sql args) h.dbc h.world)

  unfoldable pub columns : Handle server → Arg → Arg → Arg → Arg → Option (Called server)
  columns h catalog schema table column = columns_of h (record {
    catalog = arg_to_string catalog;
    schema = arg_to_string schema;
    table = arg_to_string table;
    column = arg_to_string column;
  })
