-- ===== src/Connect/Info.antt =====
-- SQLGetInfo, SQLGetFunctions and SQLNativeSql of src/connect.c.
pub mod Table
pub mod Functions
pub mod Cut
use frostlake_odbc.Base.{
  ℕ, zero, suc, ◌+◌, ◌-◌, ◌*◌, ◌/◌, ◌%◌, Bool, true, false, ◌&&◌, ◌||◌, Option, none, some, List,
  [], ◌∷◌, ◌++◌, ◌==◌, ltb, if◌then◌else◌, Bytes, codes, length, take, map,
}
use frostlake_odbc.Base.Int.{ℤ, pos, wrap_int}
use frostlake_odbc.Dbc.{Dbc}
use frostlake_odbc.Bind.Param.{Diag, text_of}
use frostlake_odbc.Response.Decode.{or_empty, half_int}
use frostlake_odbc.Proto.Request.{decimal}
use frostlake_odbc.Results.Convert.Model.{Return, diag_record, usable, truncated}
use frostlake_odbc.Statement.Describe.{Copied, copy_string}
use frostlake_odbc.Connect.Info.Table.{
  Numeric, literal, flags, InfoValue, info_string, info_u16, info_u32, InfoEntry, info_entries,
}

-- The values of the macros of sql.h and sqlext.h, by their names.
abbrev pub Header : Type 0
Header = Bytes → ℕ

-- The bitwise or of numbers of so many bits.
unfoldable pub bit_or : ℕ → ℕ → ℕ → ℕ
bit_or zero m n = 0
bit_or (suc bits) m n = (if m % 2 + n % 2 == 0 then 0 else 1) + 2 * bit_or bits (m / 2) (n / 2)

unfoldable pub or_flags : Header → List Bytes → ℕ
or_flags header [] = 0
or_flags header (name ∷ names) = bit_or 32 (header name) (or_flags header names)

unfoldable pub numeric_value : Header → Numeric → ℕ
numeric_value header (literal n) = n
numeric_value header (flags names) = or_flags header names

-- What SQLGetInfo writes: a string, or a number of two or four bytes, with its size.
pub data InfoAnswer : Type 0 where
  info_text : Copied → InfoAnswer
  info_number : ℕ → ℕ → InfoAnswer
  info_unsupported : Diag → InfoAnswer

-- The string of an entry without one.
unfoldable pub connection_value : Header → Dbc → ℕ → Bytes
connection_value header dbc type =
    if type == header (codes "SQL_DATABASE_NAME")
    then or_empty dbc.database
    else if type == header (codes "SQL_DATA_SOURCE_NAME")
    then or_empty dbc.dsn
    else if type == header (codes "SQL_SERVER_NAME")
    then or_empty dbc.host
    else []

unfoldable pub value_or : Bytes → Option Bytes → Bytes
value_or other none = other
value_or other (some value) = value

unfoldable pub info_answer : Header → Dbc → ℕ → Bool → ℤ → InfoValue → InfoAnswer
info_answer header dbc type present size (info_string value) =
    info_text (copy_string (value_or (connection_value header dbc type) value) present size)
info_answer header dbc type present size (info_u16 n) =
    info_number 2 (numeric_value header n % 65536)
info_answer header dbc type present size (info_u32 n) = info_number 4 (numeric_value header n)

-- The loop over the entries.
unfoldable pub find_info : Header → Dbc → ℕ → Bool → ℤ → List InfoEntry → InfoAnswer
find_info header dbc type present size [] =
    info_unsupported
      (diag_record (codes "HY096") (codes "Unsupported SQLGetInfo type " ++ decimal type))
find_info header dbc type present size (e ∷ entries) =
    if header e.info_type == type
    then info_answer header dbc type present size e.value
    else find_info header dbc type present size entries

unfoldable pub get_info : Header → Dbc → ℕ → Bool → ℤ → InfoAnswer
get_info header dbc type present size = find_info header dbc type present size info_entries

unfoldable pub supported : List Bytes
supported =
    codes "SQL_API_SQLALLOCHANDLE"
    ∷ codes "SQL_API_SQLFREEHANDLE"
    ∷ codes "SQL_API_SQLFREESTMT"
    ∷ codes "SQL_API_SQLALLOCENV"
    ∷ codes "SQL_API_SQLALLOCCONNECT"
    ∷ codes "SQL_API_SQLALLOCSTMT"
    ∷ codes "SQL_API_SQLCONNECT"
    ∷ codes "SQL_API_SQLDRIVERCONNECT"
    ∷ codes "SQL_API_SQLDISCONNECT"
    ∷ codes "SQL_API_SQLGETINFO"
    ∷ codes "SQL_API_SQLGETFUNCTIONS"
    ∷ codes "SQL_API_SQLGETTYPEINFO"
    ∷ codes "SQL_API_SQLSETENVATTR"
    ∷ codes "SQL_API_SQLGETENVATTR"
    ∷ codes "SQL_API_SQLSETCONNECTATTR"
    ∷ codes "SQL_API_SQLGETCONNECTATTR"
    ∷ codes "SQL_API_SQLSETSTMTATTR"
    ∷ codes "SQL_API_SQLGETSTMTATTR"
    ∷ codes "SQL_API_SQLEXECDIRECT"
    ∷ codes "SQL_API_SQLPREPARE"
    ∷ codes "SQL_API_SQLEXECUTE"
    ∷ codes "SQL_API_SQLBINDPARAMETER"
    ∷ codes "SQL_API_SQLNUMPARAMS"
    ∷ codes "SQL_API_SQLNUMRESULTCOLS"
    ∷ codes "SQL_API_SQLDESCRIBECOL"
    ∷ codes "SQL_API_SQLCOLATTRIBUTE"
    ∷ codes "SQL_API_SQLBINDCOL"
    ∷ codes "SQL_API_SQLFETCH"
    ∷ codes "SQL_API_SQLFETCHSCROLL"
    ∷ codes "SQL_API_SQLGETDATA"
    ∷ codes "SQL_API_SQLROWCOUNT"
    ∷ codes "SQL_API_SQLMORERESULTS"
    ∷ codes "SQL_API_SQLCLOSECURSOR"
    ∷ codes "SQL_API_SQLCANCEL"
    ∷ codes "SQL_API_SQLNATIVESQL"
    ∷ codes "SQL_API_SQLENDTRAN"
    ∷ codes "SQL_API_SQLGETDIAGREC"
    ∷ codes "SQL_API_SQLGETDIAGFIELD"
    ∷ codes "SQL_API_SQLTABLES"
    ∷ codes "SQL_API_SQLCOLUMNS"
    ∷ codes "SQL_API_SQLSTATISTICS"
    ∷ codes "SQL_API_SQLSPECIALCOLUMNS"
    ∷ codes "SQL_API_SQLPRIMARYKEYS"
    ∷ []

-- The two arrays that SupportedPtr may point at, by word and bit or by number, or one answer.
pub data Supported : Type 0 where
  bitmap : (ℕ → ℕ → Bool) → Supported
  numbers : (ℕ → Bool) → Supported
  one : Bool → Supported

-- `SupportedPtr[id >> 4] |= 1 << (id & 0x000F)` in the array of
-- SQL_API_ODBC3_ALL_FUNCTIONS_SIZE, 250, words; none is a write out of bounds.
unfoldable pub set_bit : ℕ → (ℕ → ℕ → Bool) → Option (ℕ → ℕ → Bool)
set_bit id words =
    if ltb (id / 16) 250
    then some (λ word bit. if word == id / 16 && bit == id % 16 then true else words word bit)
    else none

unfoldable pub then_set :
    Option (ℕ → ℕ → Bool) → ((ℕ → ℕ → Bool) → Option (ℕ → ℕ → Bool)) → Option (ℕ → ℕ → Bool)
then_set none next = none
then_set (some words) next = next words

unfoldable pub set_bits : Header → List Bytes → (ℕ → ℕ → Bool) → Option (ℕ → ℕ → Bool)
set_bits header [] words = some words
set_bits header (name ∷ names) words =
    then_set (set_bit (header name) words) (set_bits header names)

-- Only the first hundred numbers have a place in the other array.
unfoldable pub set_numbers : Header → List Bytes → (ℕ → Bool) → ℕ → Bool
set_numbers header [] array = array
set_numbers header (name ∷ names) array =
    set_numbers header names
      (if ltb (header name) 100 then (λ i. if i == header name then true else array i) else array)

unfoldable pub is_supported : Header → ℕ → List Bytes → Bool
is_supported header id [] = false
is_supported header id (name ∷ names) =
    let later = is_supported header id names in if header name == id then true else later

unfoldable pub as_bitmap : Option (ℕ → ℕ → Bool) → Option Supported
as_bitmap none = none
as_bitmap (some words) = some (bitmap words)

unfoldable pub get_functions : Header → ℕ → Option Supported
get_functions header id =
    if id == header (codes "SQL_API_ODBC3_ALL_FUNCTIONS")
    then as_bitmap (set_bits header supported (λ word bit. false))
    else if id == header (codes "SQL_API_ALL_FUNCTIONS")
    then some (numbers (set_numbers header supported (λ i. false)))
    else some (one (is_supported header id supported))

-- The return code, what is written in front of the NUL, and the length as SQLINTEGER.
pub record Native : Type 0 where
  pub code : Return
  pub text : Option Bytes
  pub length : ℤ

unfoldable pub copy_native : Bytes → Option ℕ → Option Bytes × Bool
copy_native text none = (none, false)
copy_native text (some n) =
    let copy = if ltb (length text) (n - 1) then length text else n - 1 in
    (some (take copy text), ltb copy (length text))

unfoldable pub native_sql : Option ℕ → Bytes → Bool → ℤ → Native
native_sql given memory present size =
    let text = text_of given memory in
    let (stored, cut) = copy_native text (usable present size) in
    record { code = truncated cut; text = stored; length = wrap_int half_int (pos (length text)) }
