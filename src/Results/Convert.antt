-- ===== src/Results/Convert.antt =====
-- `convert_cell` of src/results.c.
pub mod Model
pub mod Pieces
use frostlake_odbc.Base.{
  ℕ, zero, suc, ◌+◌, ◌-◌, ◌*◌, ◌/◌, Bool, true, false, ◌&&◌, ◌||◌, Option, none, some, [], ◌∷◌,
  ◌++◌, ◌==◌, leb, ltb, if◌then◌else◌, not, Bytes, codes, length, take, drop, peek, equal,
}
use frostlake_odbc.Base.Int.{ℤ, pos, negsuc, wrap_int}
use frostlake_odbc.Sql.Scanner.{is_digit, drop_one}
use frostlake_odbc.Response.Model.{
  SqlType, varchar, bigint, decimal, integer, smallint, tinyint, double, bit, type_date, type_time,
  type_timestamp, varbinary, Kind, Cell, Column,
}
use frostlake_odbc.Response.Decode.{or_empty}
use frostlake_odbc.Response.Types.{starts_ignoring_case, equal_ignoring_case}
use frostlake_odbc.Bind.Param.{Diag, signed_decimal}
use frostlake_odbc.Results.Chunk.{Chunk, no_data, delivered, read_char}
use frostlake_odbc.Results.Integer.{
  Target, Stored, stored, out_of_range, invalid_number, Parsed, value, not_number, overflow,
  parse_integer, convert_integer, skip_c_spaces,
}
use frostlake_odbc.Results.Temporal.{
  Date, Time, Timestamp, Read, read, unreadable, overrun, parse_date_part, parse_time,
  parse_timestamp,
}
use frostlake_odbc.Results.Convert.Model.{
  CType, c_default, c_char, c_binary, c_float, c_double, c_bit, c_date, c_time, c_timestamp,
  c_integer, c_other, default_c_type, Return, success, no_more, with_info, failed, Out, chars,
  bytes, real, number, flag, date, time, timestamp, Buffer, Conversion, Converted, diag_record,
  fail, when, deliver, usable, truncated, of_chunk, measure,
}
use frostlake_odbc.Results.Convert.Pieces.{convert_char, convert_bytes, convert_hex, is_binary}

unfoldable pub cannot_read : Bytes → Bytes → Bytes
cannot_read text what = codes "Cannot read '" ++ (text ++ (codes "' as a " ++ what))

unfoldable pub invalid : Bytes → Conversion
invalid text =
    fail (codes "22018") (codes "Invalid character value for cast: '" ++ (text ++ (b'\'' ∷ [])))

-- The size of SQLINTEGER, SQLUINTEGER, SQLSMALLINT, SQLUSMALLINT, SQLCHAR and SQLBIGINT.
unfoldable pub size_of : Target → ℕ
size_of Target.slong = 4
size_of Target.ulong = 4
size_of Target.sshort = 2
size_of Target.ushort = 2
size_of Target.stinyint = 1
size_of Target.utinyint = 1
size_of Target.sbigint = 8
size_of Target.ubigint = 8

unfoldable pub of_stored : Buffer → Target → Bytes → Stored → Conversion
of_stored b target text (stored z) = deliver b (number z) (size_of target)
of_stored b target text out_of_range = fail (codes "22003") (codes "Numeric value out of range")
of_stored b target text invalid_number = invalid text

-- The value of SQL_C_BIT.
unfoldable pub bit_number : Parsed → Option ℕ
bit_number (value (pos zero)) = some 0
bit_number (value (pos (suc zero))) = some 1
bit_number _ = none

unfoldable pub bit_value : Bytes → Option ℕ
bit_value text =
    if equal text (codes "1") || equal_ignoring_case (codes "true") text
    then some 1
    else if equal text (codes "0") || equal_ignoring_case (codes "false") text
    then some 0
    else bit_number (parse_integer text)

-- `strtod` reads a number: behind blanks and a sign, a digit, a point and a digit, or the names
-- of an infinity or of no number.
unfoldable pub skip_one_sign : Bytes → Bytes
skip_one_sign s = if peek s == b'-' || peek s == b'+' then drop_one s else s

unfoldable pub starts_real : Bytes → Bool
starts_real s =
    is_digit (peek s)
    || (peek s == b'.' && is_digit (peek (drop_one s)))
    || starts_ignoring_case (codes "inf") s
    || starts_ignoring_case (codes "nan") s

unfoldable pub is_real : Bytes → Bool
is_real text = starts_real (skip_one_sign (skip_c_spaces text))

unfoldable pub convert_real : Buffer → Bytes → ℕ → Conversion
convert_real b text size = if is_real text then deliver b (real text) size else invalid text

unfoldable pub of_bit : Buffer → Bytes → Option ℕ → Conversion
of_bit b text (some n) = deliver b (flag n) 1
of_bit b text none = invalid text

unfoldable pub of_read {ℓ} :
    {A : Type ℓ} → Buffer → Bytes → Bytes → ℕ → (A → Out) → Read A → Converted
of_read b text what size store (read x) = some (deliver b (store x) size)
of_read b text what size store unreadable = some (fail (codes "22018") (cannot_read text what))
of_read b text what size store overrun = none

-- The switch, for a cell's text; `from` is the offset that the call starts at.
unfoldable pub convert_text : SqlType → CType → Buffer → Bytes → ℕ → Converted
convert_text type c_default b text from =
    some (fail (codes "HYC00") (codes "Unsupported target C type " ++ signed_decimal (pos 99)))
convert_text type c_char b text from = some (convert_char b text from)
convert_text type c_binary b text from =
    some (if is_binary type then convert_hex b text from else convert_bytes b text from)
convert_text type (c_integer target) b text from =
    some (of_stored b target text (convert_integer target text))
convert_text type c_float b text from = some (convert_real b text 4)
convert_text type c_double b text from = some (convert_real b text 8)
convert_text type c_bit b text from = some (of_bit b text (bit_value text))
convert_text type c_date b text from =
    of_read b text (codes "DATE") 6 Out.date (parse_date_part text)
convert_text type c_time b text from = of_read b text (codes "TIME") 6 Out.time (parse_time text)
convert_text type c_timestamp b text from =
    of_read b text (codes "TIMESTAMP") 16 Out.timestamp (parse_timestamp text)
convert_text type (c_other n) b text from =
    some (fail (codes "HYC00") (codes "Unsupported target C type " ++ signed_decimal n))

unfoldable pub resolve : SqlType → CType → CType
resolve type c_default = default_c_type type
resolve type c = c

unfoldable pub is_text_target : CType → Bool
is_text_target c_char = true
is_text_target c_binary = true
is_text_target _ = false

unfoldable pub is_boolean : Kind → Bool
is_boolean Kind.boolean = true
is_boolean _ = false

-- A boolean's spelling, for every target but a text.
unfoldable pub spelled : Kind → CType → Bytes → Bytes
spelled kind c text =
    if is_boolean kind && not (is_text_target c)
    then (if equal text (codes "true")
        then codes "1"
        else if equal text (codes "false")
        then codes "0"
        else text)
    else text

unfoldable pub null_conversion : Buffer → Conversion
null_conversion b =
    if b.indicator
    then record { code = success; out = none; written = some (negsuc 0); offset = none }
    else fail (codes "22002") (codes "Indicator variable required but not supplied")

unfoldable pub cell_text : Cell → Bytes
cell_text cell = or_empty cell.text

unfoldable pub convert_cell : Column → Cell → CType → Buffer → ℕ → Converted
convert_cell column cell c b from =
    let target = resolve column.sql_type c in
    if cell.is_null
    then some (null_conversion b)
    else convert_text column.sql_type target b (spelled cell.kind target (cell_text cell)) from
