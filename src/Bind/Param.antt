-- ===== src/Bind/Param.antt =====
-- `fl_bound_param` of src/fl_odbc.h and `append_param_literal` of src/execute.c.
use frostlake_odbc.Base.{
  ℕ, suc, ◌-◌, Bool, Option, none, some, [], ◌∷◌, ◌++◌, ◌||◌, ◌==◌, leb, if◌then◌else◌, Bytes,
  codes, length, replicate, take, c_string,
}
use frostlake_odbc.Base.Int.{ℤ, pos, negsuc}
use frostlake_odbc.Sql.Literal.{
  append_string_literal, append_binary_literal, is_numeric_literal, append_number,
}
use frostlake_odbc.Proto.Request.{decimal}

-- What the driver reads behind `buffer`, by the C type. A text is the memory from the buffer on; a
-- floating-point number is the text that the C library prints for it with %.9g or %.17g.
pub data Value : Type 0 where
  char : Bytes → Value
  wchar : Value
  slong sshort stinyint sbigint : ℤ → Value
  ulong ushort utinyint ubigint : ℕ → Value
  float double : Bytes → Value
  bit : ℕ → Value
  binary : Bytes → Value
  date : ℤ → ℕ → ℕ → Value
  time : ℕ → ℕ → ℕ → Value
  timestamp : ℤ → ℕ → ℕ → ℕ → ℕ → ℕ → ℕ → Value
  other : ℤ → Value

-- The SQL types that `append_param_literal` tells apart.
pub data ParamType : Type 0 where
  sql_date sql_time sql_timestamp sql_decimal sql_numeric sql_integer sql_bigint : ParamType
  sql_double sql_float sql_real sql_smallint sql_tinyint sql_other : ParamType

-- `value` is none for a NULL buffer, `indicator` none for a NULL pointer.
pub record Param : Type 0 where
  pub bound : Bool
  pub sql_type : ParamType
  pub value : Option Value
  pub indicator : Option ℤ

-- A diagnostic record: the SQLSTATE and the message.
pub record Diag : Type 0 where
  pub sqlstate : Bytes
  pub message : Bytes

pub data Rendered : Type 0 where
  rendered : Bytes → Rendered
  refused : Diag → Rendered

unfoldable pub refuse : Bytes → Bytes → Rendered
refuse state text = refused (record { sqlstate = state; message = text })

-- `%ld`, `%d` and `%lld`
unfoldable pub signed_decimal : ℤ → Bytes
signed_decimal (pos n) = decimal n
signed_decimal (negsuc n) = b'-' ∷ decimal (suc n)

-- `%0*d` and `%0*u` of a number that is not negative
unfoldable pub padded : ℕ → ℕ → Bytes
padded width n = replicate (width - length (decimal n)) b'0' ++ decimal n

-- `%04d`
unfoldable pub padded_year : ℤ → Bytes
padded_year (pos n) = padded 4 n
padded_year (negsuc n) = b'-' ∷ padded 3 (suc n)

-- What the indicator says of the value: SQL_NTS, a length, or that it is NULL.
pub data Extent : Type 0 where
  nts null_data : Extent
  exactly : ℕ → Extent
  marker : Diag → Extent

-- SQL_NULL_DATA is -1, SQL_DATA_AT_EXEC -2, SQL_NTS -3, SQL_DEFAULT_PARAM -5, and
-- SQL_LEN_DATA_AT_EXEC_OFFSET -100.
unfoldable pub marker_diag : ℕ → Diag
marker_diag n =
    if n == 1 || leb 99 n
    then record {
      sqlstate = codes "HYC00";
      message = codes "Data-at-execution parameters are not supported";
    }
    else if n == 4
    then record { sqlstate = codes "HYC00"; message = codes "SQL_DEFAULT_PARAM is not supported" }
    else record {
      sqlstate = codes "HY090";
      message = codes "Invalid string or buffer length " ++ signed_decimal (negsuc n);
    }

unfoldable pub extent : Option ℤ → Extent
extent none = nts
extent (some (pos n)) = exactly n
extent (some (negsuc n)) =
    if n == 0 then null_data else if n == 2 then nts else marker (marker_diag n)

-- The bytes that a length, or the NUL, leaves of the memory.
unfoldable pub text_of : Option ℕ → Bytes → Bytes
text_of none memory = c_string memory
text_of (some n) memory = take n memory

unfoldable pub bytes_of : Option ℕ → Bytes → Bytes
bytes_of none memory = []
bytes_of (some n) memory = take n memory

unfoldable pub append_numeric_text : Bytes → Bytes → Rendered
append_numeric_text buf text =
    if is_numeric_literal text
    then rendered (append_number buf text)
    else refuse (codes "22018") (codes "Parameter bound as a numeric SQL type is not a number")

-- The case SQL_C_CHAR, by the SQL type.
unfoldable pub append_char : Bytes → ParamType → Bytes → Rendered
append_char buf sql_date text = rendered (append_string_literal buf text ++ codes "::DATE")
append_char buf sql_time text = rendered (append_string_literal buf text ++ codes "::TIME")
append_char buf sql_timestamp text =
    rendered (append_string_literal buf text ++ codes "::TIMESTAMP_NTZ")
append_char buf sql_other text = rendered (append_string_literal buf text)
append_char buf _ text = append_numeric_text buf text

unfoldable pub time_text : ℕ → ℕ → ℕ → Bytes
time_text hour minute second =
    padded 2 hour ++ (b':' ∷ (padded 2 minute ++ (b':' ∷ padded 2 second)))

unfoldable pub date_text : ℤ → ℕ → ℕ → Bytes
date_text year month day = padded_year year ++ (b'-' ∷ (padded 2 month ++ (b'-' ∷ padded 2 day)))

-- The switch over the C type; the length is none for SQL_NTS.
unfoldable pub append_value : Bytes → ParamType → Option ℕ → Value → Rendered
append_value buf type n (char memory) = append_char buf type (text_of n memory)
append_value buf type n wchar =
    refuse (codes "HYC00")
      (codes "Wide-character parameters are not supported; bind SQL_C_CHAR (UTF-8)")
append_value buf type n (slong z) = rendered (append_number buf (signed_decimal z))
append_value buf type n (sshort z) = rendered (append_number buf (signed_decimal z))
append_value buf type n (stinyint z) = rendered (append_number buf (signed_decimal z))
append_value buf type n (sbigint z) = rendered (append_number buf (signed_decimal z))
append_value buf type n (ulong m) = rendered (buf ++ decimal m)
append_value buf type n (ushort m) = rendered (buf ++ decimal m)
append_value buf type n (utinyint m) = rendered (buf ++ decimal m)
append_value buf type n (ubigint m) = rendered (buf ++ decimal m)
append_value buf type n (float printed) = rendered (append_number buf printed)
append_value buf type n (double printed) = rendered (append_number buf printed)
append_value buf type n (bit b) = rendered (buf ++ (if b == 0 then codes "FALSE" else codes "TRUE"))
append_value buf type n (binary memory) = rendered (append_binary_literal buf (bytes_of n memory))
append_value buf type n (date y m d) =
    rendered (buf ++ (b'\'' ∷ (date_text y m d ++ codes "'::DATE")))
append_value buf type n (time h m s) =
    rendered (buf ++ (b'\'' ∷ (time_text h m s ++ codes "'::TIME")))
append_value buf type n (timestamp y mo d h mi s fraction) = rendered (
    buf
    ++ (b'\''
        ∷ (date_text y mo d
            ++ (b'T'
                ∷ (time_text h mi s ++ (b'.' ∷ (padded 9 fraction ++ codes "'::TIMESTAMP_NTZ")))))))
append_value buf type n (other c_type) =
    refuse (codes "HYC00") (codes "Unsupported parameter C type " ++ signed_decimal c_type)

-- A buffer that is there, with what its indicator says.
unfoldable pub append_extent : Bytes → ParamType → Extent → Value → Rendered
append_extent buf type null_data value = rendered (buf ++ codes "NULL")
append_extent buf type (marker diag) value = refused diag
append_extent buf type nts value = append_value buf type none value
append_extent buf type (exactly n) value = append_value buf type (some n) value

unfoldable pub append_bound : Bytes → Param → Option Value → Rendered
append_bound buf param none = rendered (buf ++ codes "NULL")
append_bound buf param (some value) =
    append_extent buf param.sql_type (extent param.indicator) value

unfoldable pub append_param_literal : Bytes → Param → Rendered
append_param_literal buf param =
    if param.bound
    then append_bound buf param param.value
    else refuse (codes "07002") (codes "Statement has an unbound parameter")
