-- ===== src/Catalog/Types.antt =====
-- SQLGetTypeInfo of src/catalog.c, and the calls that answer an empty set.
use frostlake_odbc.Base.{
  ℕ, Bool, true, false, ◌||◌, Option, none, some, List, [], ◌∷◌, if◌then◌else◌, Bytes, codes,
  get_elem?, ◌==◌,
}
use frostlake_odbc.Base.Int.{ℤ, pos, negsuc}
use frostlake_odbc.Response.Model.{
  SqlType, varchar, bigint, decimal, integer, smallint, double, bit, type_date, type_time,
  type_timestamp, varbinary, ResultSet,
}
use frostlake_odbc.Proto.Server.{Server}
use frostlake_odbc.Statement.Execute.{Handle, Called}
use frostlake_odbc.Statement.Field.{type_code}
use frostlake_odbc.Catalog.Synth.{Entry, of_text, of_int, of_null, synth_new, fill}
use frostlake_odbc.Catalog.Tables.{text_or_null, installed}
use frostlake_odbc.Catalog.Columns.{radix, verbose_type, datetime_sub}

pub record TypeRow : Type 0 where
  pub name : Bytes
  pub data_type : SqlType
  pub column_size : ℕ
  pub prefix : Option Bytes
  pub suffix : Option Bytes
  pub create_params : Option Bytes
  pub min_scale : ℕ
  pub max_scale : ℕ

unfoldable pub type_row :
    Bytes → SqlType → ℕ → Option Bytes → Option Bytes → Option Bytes → ℕ → ℕ → TypeRow
type_row name data_type column_size prefix suffix create_params min_scale max_scale = record {
  name = name;
  data_type = data_type;
  column_size = column_size;
  prefix = prefix;
  suffix = suffix;
  create_params = create_params;
  min_scale = min_scale;
  max_scale = max_scale;
}

abbrev quote : Option Bytes
quote = some (codes "'")

unfoldable pub type_rows : List TypeRow
type_rows =
    type_row (codes "VARCHAR") varchar 16777216 quote quote (some (codes "max length")) 0 0
    ∷ type_row (codes "NUMBER") decimal 38 none none (some (codes "precision,scale")) 0 37
    ∷ type_row (codes "NUMBER") bigint 19 none none none 0 0
    ∷ type_row (codes "FLOAT") double 15 none none none 0 0
    ∷ type_row (codes "BOOLEAN") bit 1 none none none 0 0
    ∷ type_row (codes "DATE") type_date 10 quote quote none 0 0
    ∷ type_row (codes "TIME") type_time 8 quote quote none 0 9
    ∷ type_row (codes "TIMESTAMP_NTZ") type_timestamp 29 quote quote none 0 9
    ∷ type_row (codes "BINARY") varbinary 8388608 (some (codes "X'")) quote
        (some (codes "max length")) 0 0
    ∷ type_row (codes "VARIANT") varchar 16777216 none none none 0 0
    ∷ []

abbrev pub type_info_columns : List (Bytes × SqlType)
type_info_columns =
    (codes "TYPE_NAME", varchar)
    ∷ (codes "DATA_TYPE", smallint)
    ∷ (codes "COLUMN_SIZE", integer)
    ∷ (codes "LITERAL_PREFIX", varchar)
    ∷ (codes "LITERAL_SUFFIX", varchar)
    ∷ (codes "CREATE_PARAMS", varchar)
    ∷ (codes "NULLABLE", smallint)
    ∷ (codes "CASE_SENSITIVE", smallint)
    ∷ (codes "SEARCHABLE", smallint)
    ∷ (codes "UNSIGNED_ATTRIBUTE", smallint)
    ∷ (codes "FIXED_PREC_SCALE", smallint)
    ∷ (codes "AUTO_UNIQUE_VALUE", smallint)
    ∷ (codes "LOCAL_TYPE_NAME", varchar)
    ∷ (codes "MINIMUM_SCALE", smallint)
    ∷ (codes "MAXIMUM_SCALE", smallint)
    ∷ (codes "SQL_DATA_TYPE", smallint)
    ∷ (codes "SQL_DATETIME_SUB", smallint)
    ∷ (codes "NUM_PREC_RADIX", integer)
    ∷ (codes "INTERVAL_PRECISION", smallint)
    ∷ []

unfoldable pub is_varchar : SqlType → Bool
is_varchar varchar = true
is_varchar _ = false

-- SQL_NULLABLE is 1, SQL_SEARCHABLE 3, SQL_TRUE 1 and SQL_FALSE 0.
unfoldable pub type_entries : TypeRow → List Entry
type_entries t =
    of_text t.name
    ∷ of_int (type_code t.data_type)
    ∷ of_int (pos t.column_size)
    ∷ text_or_null t.prefix
    ∷ text_or_null t.suffix
    ∷ text_or_null t.create_params
    ∷ of_int (pos 1)
    ∷ of_int (pos (if is_varchar t.data_type then 1 else 0))
    ∷ of_int (pos 3)
    ∷ of_int (pos 0)
    ∷ of_int (pos 0)
    ∷ of_int (pos 0)
    ∷ of_text t.name
    ∷ of_int (pos t.min_scale)
    ∷ of_int (pos t.max_scale)
    ∷ of_int (verbose_type t.data_type)
    ∷ datetime_sub t.data_type
    ∷ of_int (radix t.data_type)
    ∷ of_null
    ∷ []

unfoldable pub same_code : ℤ → ℤ → Bool
same_code (pos m) (pos n) = m == n
same_code (negsuc m) (negsuc n) = m == n
same_code _ _ = false

-- SQL_ALL_TYPES is 0.
unfoldable pub type_asked : ℤ → SqlType → Bool
type_asked wanted type = same_code wanted (pos 0) || same_code wanted (type_code type)

-- A round of the loop over the types; there is no type behind the last.
unfoldable pub type_round : ℤ → Option TypeRow → Option (List Entry)
type_round wanted none = none
type_round wanted (some t) = if type_asked wanted t.data_type then some (type_entries t) else none

unfoldable pub list_type_info : ℤ → Option ResultSet
list_type_info wanted =
    fill (λ r row. type_round wanted (get_elem? type_rows r)) 0 10 (synth_new type_info_columns 10)

unfoldable pub all_varchar : List Bytes → List (Bytes × SqlType)
all_varchar [] = []
all_varchar (name ∷ names) = (name, varchar) ∷ all_varchar names

abbrev pub statistics_columns : List Bytes
statistics_columns =
    codes "TABLE_CAT"
    ∷ codes "TABLE_SCHEM"
    ∷ codes "TABLE_NAME"
    ∷ codes "NON_UNIQUE"
    ∷ codes "INDEX_QUALIFIER"
    ∷ codes "INDEX_NAME"
    ∷ codes "TYPE"
    ∷ codes "ORDINAL_POSITION"
    ∷ codes "COLUMN_NAME"
    ∷ codes "ASC_OR_DESC"
    ∷ codes "CARDINALITY"
    ∷ codes "PAGES"
    ∷ codes "FILTER_CONDITION"
    ∷ []

abbrev pub special_columns_columns : List Bytes
special_columns_columns =
    codes "SCOPE"
    ∷ codes "COLUMN_NAME"
    ∷ codes "DATA_TYPE"
    ∷ codes "TYPE_NAME"
    ∷ codes "COLUMN_SIZE"
    ∷ codes "BUFFER_LENGTH"
    ∷ codes "DECIMAL_DIGITS"
    ∷ codes "PSEUDO_COLUMN"
    ∷ []

abbrev pub primary_keys_columns : List Bytes
primary_keys_columns =
    codes "TABLE_CAT"
    ∷ codes "TABLE_SCHEM"
    ∷ codes "TABLE_NAME"
    ∷ codes "COLUMN_NAME"
    ∷ codes "KEY_SEQ"
    ∷ codes "PK_NAME"
    ∷ []

module _ (server : Server) where
  unfoldable pub get_type_info : Handle server → ℤ → Option (Called server)
  get_type_info h wanted = installed server (list_type_info wanted) h.stmt h.dbc h.world

  unfoldable pub empty_result : Handle server → List Bytes → Option (Called server)
  empty_result h names =
      installed server (some (synth_new (all_varchar names) 1)) h.stmt h.dbc h.world

  unfoldable pub statistics : Handle server → Option (Called server)
  statistics h = empty_result h statistics_columns

  unfoldable pub special_columns : Handle server → Option (Called server)
  special_columns h = empty_result h special_columns_columns

  unfoldable pub primary_keys : Handle server → Option (Called server)
  primary_keys h = empty_result h primary_keys_columns
