-- ===== src/Bind/Context.antt =====
-- `track_context` of src/execute.c: the catalog and the schema that a successful USE moved to.
pub mod Names
use frostlake_odbc.Base.{
  ℕ, ◌+◌, Bool, true, false, ◌&&◌, ◌||◌, none, some, [], ◌∷◌, ◌==◌, leb, map, if◌then◌else◌, Bytes,
  codes, length, drop, peek,
}
use frostlake_odbc.Sql.Ident.{to_upper}
use frostlake_odbc.Response.Types.{starts_ignoring_case}
use frostlake_odbc.Dbc.{Dbc}

unfoldable pub skip_white : Bytes → Bytes
skip_white [] = []
skip_white (c ∷ s) =
    if c == b' ' || c == b'\t' || c == b'\n' || c == b'\r' then skip_white s else c ∷ s

unfoldable pub skip_spaces : Bytes → Bytes
skip_spaces [] = []
skip_spaces (c ∷ s) = if c == b' ' then skip_spaces s else c ∷ s

unfoldable pub is_tail : ℕ → Bool
is_tail c = c == b';' || c == b' ' || c == b'\n' || c == b'\r'

unfoldable pub all_tail : Bytes → Bool
all_tail [] = true
all_tail (c ∷ s) = is_tail c && all_tail s

-- The text up to `length`, once the loop has taken semicolons and blanks off its end.
unfoldable pub trim_tail : Bytes → Bytes
trim_tail [] = []
trim_tail (c ∷ s) = if all_tail (c ∷ s) then [] else c ∷ trim_tail s

-- rest[length - 1], and what stands in front of it.
unfoldable pub last : Bytes → ℕ
last [] = 0
last (c ∷ []) = c
last (c ∷ d ∷ s) = last (d ∷ s)

unfoldable pub init : Bytes → Bytes
init [] = []
init (c ∷ []) = []
init (c ∷ d ∷ s) = c ∷ init (d ∷ s)

-- The loop over a quoted name. Its look-ahead at the last character meets the closing quote, and
-- copies that in place of the one in front of it.
unfoldable pub undouble : Bytes → Bytes
undouble [] = []
undouble (c ∷ []) = c ∷ []
undouble (c ∷ d ∷ s) =
    let pair = d ∷ undouble s in
    let one = c ∷ undouble (d ∷ s) in if c == b'"' && d == b'"' then pair else one

unfoldable pub tracked_name : Bytes → Bytes
tracked_name rest =
    if peek rest == b'"' && leb 2 (length rest) && last rest == b'"'
    then undouble (init (drop 1 rest))
    else map to_upper rest

-- The name in `rest`, or none when nothing is left of it; the two slots are what it replaces.
unfoldable pub set_database : Dbc → Bytes → Dbc
set_database dbc [] = dbc
set_database dbc (c ∷ rest) = record dbc { database = some (tracked_name (c ∷ rest)) }

unfoldable pub set_schema : Dbc → Bytes → Dbc
set_schema dbc [] = dbc
set_schema dbc (c ∷ rest) = record dbc { schema = some (tracked_name (c ∷ rest)) }

unfoldable pub track_context : Dbc → Bytes → Dbc
track_context dbc sql =
    let s = skip_white sql in
    if starts_ignoring_case (codes "USE DATABASE ") s
    then set_database dbc (trim_tail (skip_spaces (drop 13 s)))
    else if starts_ignoring_case (codes "USE SCHEMA ") s
    then set_schema dbc (trim_tail (skip_spaces (drop 11 s)))
    else dbc
