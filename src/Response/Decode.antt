-- ===== src/Response/Decode.antt =====
-- `decode_columns` and `decode_rows` of src/proto.c, and `fl_json_get_long` of src/json.c.
use frostlake_odbc.Base.{
  ℕ, zero, suc, ◌+◌, ◌-◌, ◌*◌, Bool, true, false, Option, none, some, List, [], ◌∷◌, ◌++◌, ◌==◌,
  ltb, if◌then◌else◌, Bytes, codes, c_string, peek,
}
use frostlake_odbc.Base.Int.{ℤ, pos, negsuc, neg, wrap_int}
use frostlake_odbc.Json.Value.{Json, null, bool, number, string, get, get_string, at, child_count}
use frostlake_odbc.Sql.Scanner.{is_digit, drop_one}
use frostlake_odbc.Results.Integer.{skip_c_spaces}
use frostlake_odbc.Response.Model.{SqlType, bit, Kind, Cell, Column, ResultSet}
use frostlake_odbc.Response.Model.{Kind}
use frostlake_odbc.Response.Types.{sql_type_for}

-- The value of the digits in front.
unfoldable pub leading_digits : ℕ → Bytes → ℕ
leading_digits n [] = n
leading_digits n (c ∷ s) =
    let more = leading_digits (n * 10 + (c - b'0')) s in if is_digit c then more else n

abbrev pub long_max : ℕ
long_max = 9223372036854775807

-- The sign and the digits of a number's text, held at the ends of `long`.
unfoldable pub signed_long : Bytes → ℤ
signed_long s =
    if peek s == b'-'
    then (let n = leading_digits 0 (drop_one s) in
        if ltb long_max n then negsuc long_max else neg n)
    else (let n = leading_digits 0 (if peek s == b'+' then drop_one s else s) in
        pos (if ltb long_max n then long_max else n))

-- `strtol(text, NULL, 10)` and `strtoll`: behind blanks, a sign and digits.
unfoldable pub strtol : Bytes → ℤ
strtol text = signed_long (skip_c_spaces text)

unfoldable pub as_long : Option Json → ℤ → ℤ
as_long (some (number lexeme)) fallback = strtol lexeme
as_long (some _) fallback = fallback
as_long none fallback = fallback

unfoldable pub get_long : Option Json → Bytes → ℤ → ℤ
get_long j key fallback = as_long (get j key) fallback

abbrev pub half_int : ℕ
half_int = 2147483648

-- `(SQLINTEGER) fl_json_get_long(column, key, 0)`
unfoldable pub get_int : Option Json → Bytes → ℤ
get_int j key = wrap_int half_int (get_long j key (pos 0))

unfoldable pub or_empty : Option Bytes → Bytes
or_empty none = []
or_empty (some s) = s

unfoldable pub decode_column : Option Json → Column
decode_column j =
    let scale = get_int j (codes "scale") in
    let type_name = get_string j (codes "dataType") in
    record {
      name = or_empty (get_string j (codes "name"));
      type_name = type_name;
      sql_type = sql_type_for type_name scale;
      precision = get_int j (codes "precision");
      scale = scale;
      length = get_int j (codes "length");
    }

-- `child_count` of a node that may be NULL.
unfoldable pub count_of : Option Json → ℕ
count_of none = 0
count_of (some j) = child_count j

-- `left` columns from number `i` on.
unfoldable pub decode_columns_from : Option Json → ℕ → ℕ → List Column
decode_columns_from columns zero i = []
decode_columns_from columns (suc left) i =
    decode_column (at columns i) ∷ decode_columns_from columns left (i + 1)

unfoldable pub decode_columns : Option Json → List Column
decode_columns columns = decode_columns_from columns (count_of columns) 0

unfoldable pub is_bit : SqlType → Bool
is_bit bit = true
is_bit _ = false

unfoldable pub bool_cell : Bool → Bool → Bytes
bool_cell true true = codes "1"
bool_cell true false = codes "0"
bool_cell false true = codes "true"
bool_cell false false = codes "false"

abbrev pub null_cell : Cell
null_cell = record { text = none; kind = Kind.text; is_null = true }

unfoldable pub decode_cell : Column → Option Json → Cell
decode_cell col none = null_cell
decode_cell col (some null) = null_cell
decode_cell col (some (number lexeme)) = record {
  text = some lexeme;
  kind = Kind.number;
  is_null = false;
}
decode_cell col (some (bool b)) = record {
  text = some (bool_cell (is_bit col.sql_type) b);
  kind = Kind.boolean;
  is_null = false;
}
decode_cell col (some (string s)) = record {
  text = some (c_string s);
  kind = Kind.text;
  is_null = false;
}
decode_cell col (some _) = record { text = some []; kind = Kind.text; is_null = false }

unfoldable pub decode_row : List Column → Option Json → ℕ → List Cell
decode_row [] row i = []
decode_row (col ∷ columns) row i = decode_cell col (at row i) ∷ decode_row columns row (i + 1)

unfoldable pub decode_rows_from : List Column → Option Json → ℕ → ℕ → List Cell
decode_rows_from columns rows zero r = []
decode_rows_from columns rows (suc left) r =
    decode_row columns (at rows r) 0 ++ decode_rows_from columns rows left (r + 1)

unfoldable pub decode_set : Option Json → ResultSet
decode_set j =
    let columns = decode_columns (get j (codes "columns")) in
    let rows = get j (codes "rows") in
    record {
      columns = columns;
      column_count = count_of (get j (codes "columns"));
      cells = decode_rows_from columns rows (count_of rows) 0;
      row_count = count_of rows;
    }

unfoldable pub decode_sets_from : Option Json → ℕ → ℕ → List ResultSet
decode_sets_from sets zero i = []
decode_sets_from sets (suc left) i = decode_set (at sets i) ∷ decode_sets_from sets left (i + 1)

unfoldable pub decode_sets : Option Json → List ResultSet
decode_sets sets = decode_sets_from sets (count_of sets) 0
