-- ===== src/Response/Types.antt =====
-- `fl_sql_type_for` and `fl_type_display_size` of src/util.c.
use frostlake_odbc.Base.{
  ℕ, zero, suc, Bool, true, false, ◌&&◌, ◌||◌, Option, none, some, [], ◌∷◌, ◌==◌, if◌then◌else◌,
  Bytes, codes,
}
use frostlake_odbc.Base.Int.{ℤ, pos, negsuc, is_zero, wrap_int}
use frostlake_odbc.Sql.Ident.{to_upper}
use frostlake_odbc.Response.Model.{
  SqlType, varchar, bigint, decimal, integer, smallint, tinyint, double, bit, type_date, type_time,
  type_timestamp, varbinary, Column,
}

-- `strncasecmp(s, word, strlen(word)) == 0`, ASCII letters compared by their capitals.
unfoldable pub starts_ignoring_case : Bytes → Bytes → Bool
starts_ignoring_case [] s = true
starts_ignoring_case (w ∷ word) [] = false
starts_ignoring_case (w ∷ word) (c ∷ s) = to_upper c == to_upper w && starts_ignoring_case word s

-- `strcasecmp(s, word) == 0`
unfoldable pub equal_ignoring_case : Bytes → Bytes → Bool
equal_ignoring_case [] [] = true
equal_ignoring_case (w ∷ word) (c ∷ s) = to_upper c == to_upper w && equal_ignoring_case word s
equal_ignoring_case _ _ = false

-- `strcasestr(s, word) != NULL`
unfoldable pub contains_ignoring_case : Bytes → Bytes → Bool
contains_ignoring_case word [] = starts_ignoring_case word []
contains_ignoring_case word (c ∷ s) =
    starts_ignoring_case word (c ∷ s) || contains_ignoring_case word s

unfoldable pub sql_type_for : Option Bytes → ℤ → SqlType
sql_type_for none scale = varchar
sql_type_for (some name) scale =
    if contains_ignoring_case (codes "TIMESTAMP") name
      || contains_ignoring_case (codes "DATETIME") name
    then type_timestamp
    else if contains_ignoring_case (codes "DATE") name
    then type_date
    else if contains_ignoring_case (codes "TIME") name
    then type_time
    else if contains_ignoring_case (codes "INT") name
    then bigint
    else if contains_ignoring_case (codes "DECIMAL") name
        || contains_ignoring_case (codes "NUMBER") name
        || contains_ignoring_case (codes "NUMERIC") name
    then (if is_zero scale then bigint else decimal)
    else if contains_ignoring_case (codes "DOUBLE") name
        || contains_ignoring_case (codes "REAL") name
        || contains_ignoring_case (codes "FLOAT") name
    then double
    else if equal_ignoring_case (codes "BOOL") name || contains_ignoring_case (codes "BOOLEAN") name
    then bit
    else if contains_ignoring_case (codes "BINARY") name
        || contains_ignoring_case (codes "BYTES") name
    then varbinary
    else varchar

-- A count that the wire may have left out.
unfoldable pub or_default : ℤ → ℕ → ℕ
or_default (pos zero) fallback = fallback
or_default (pos (suc n)) fallback = suc n
or_default (negsuc n) fallback = fallback

unfoldable pub display_size : Column → ℕ
display_size col = elim col.sql_type [
  | bigint ↦ or_default col.precision 19
  | decimal ↦ or_default col.precision 38
  | integer ↦ 10
  | smallint ↦ 5
  | tinyint ↦ 3
  | double ↦ 15
  | bit ↦ 1
  | type_date ↦ 10
  | type_time ↦ 8
  | type_timestamp ↦ 29
  | varbinary ↦ or_default col.length 8388608
  | varchar ↦ or_default col.length 16777216
]

unfoldable pub decimal_digits : Column → ℤ
decimal_digits col = elim col.sql_type [
  | decimal ↦ wrap_int 32768 col.scale
  | type_timestamp ↦ pos 3
  | _ ↦ pos 0
]
