-- ===== src/Bind/Tests.antt =====
-- Runs of the parameter binding at concrete inputs.
use frostlake_odbc.Base.{◌≡◌, ◌↔◌, ◌≤◌, ◌||◌, refl, true, false, some, none, [], ◌∷◌, codes, Bytes}
use frostlake_odbc.Base.Int.{negsuc}
use frostlake_odbc.Dbc.{alloc_dbc}
use frostlake_odbc.Sql.Scanner.{
  is_upper, is_lower, is_digit, is_name_start, is_name_char, name_rest, skip_opening, skip,
  count_loop, count_placeholders, single_quoted,
}
use frostlake_odbc.Sql.Ident.{
  append_ident, ident_is_bare, ident_is_quoted, double_quotes, all_name_chars,
}
use frostlake_odbc.Bind.Param.{
  Param, slong, sql_integer, rendered, append_param_literal, append_bound, append_extent,
  append_value, extent,
}
use frostlake_odbc.Bind.Substitute.{substitute_params}
use frostlake_odbc.Bind.Substitute.Markers.{IsRenderable, substitute_params-rendered_iff}
use frostlake_odbc.Bind.Context.{track_context}
use frostlake_odbc.Bind.Context.Names.{track_context-append_ident}

-- The SQL_C_SLONG -5.
abbrev minus_five : Param
minus_five = record {
  bound = true;
  sql_type = sql_integer;
  value = some (slong (negsuc 4));
  indicator = none;
}

minus_five-IsRenderable : IsRenderable minus_five
unfolding append_param_literal append_bound append_extent append_value extent
minus_five-IsRenderable buf = (_, refl)

substitute_params-rendered_iff_example :
    ((out : Bytes) × (substitute_params (minus_five ∷ []) (codes "SELECT 3-?") ≡ rendered out))
    ↔ (count_placeholders (codes "SELECT 3-?") ≤ 1)
substitute_params-rendered_iff_example =
    substitute_params-rendered_iff (minus_five ∷ []) (codes "SELECT 3-?")
      (minus_five-IsRenderable, tt)

unmarked : count_placeholders (codes "SELECT '?'") ≡ 0
unfolding is_upper is_lower is_digit is_name_start is_name_char name_rest skip_opening skip
    count_loop count_placeholders single_quoted
unmarked = refl

wrapped : (ident_is_quoted (codes "my db") || ident_is_bare (codes "my db")) ≡ false
unfolding ident_is_quoted ident_is_bare all_name_chars is_name_start is_name_char is_upper is_lower
    is_digit
wrapped = refl

use_my_db :
    append_ident (codes "USE DATABASE ") (codes "my db") ≡ some (codes "USE DATABASE \"my db\"")
unfolding append_ident ident_is_quoted ident_is_bare all_name_chars is_name_start is_name_char
    is_upper is_lower is_digit double_quotes
use_my_db = refl

track_context-append_ident_example :
    track_context alloc_dbc (codes "USE DATABASE \"my db\"")
    ≡ (record alloc_dbc { database = some (codes "my db") })
track_context-append_ident_example =
    track_context-append_ident alloc_dbc (codes "my db") wrapped use_my_db
