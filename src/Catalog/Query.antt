-- ===== src/Catalog/Query.antt =====
-- The helpers of src/catalog.c that read the arguments, build a query, run it and read its answer.
pub mod Like
pub mod Reads
use frostlake_odbc.Base.{
  ℕ, zero, suc, ◌+◌, ◌-◌, ◌*◌, Bool, true, false, ◌&&◌, ◌||◌, not, Option, none, some, List, [],
  ◌∷◌, ◌++◌, ◌==◌, leb, if◌then◌else◌, Bytes, codes, equal, get_elem?,
}
use frostlake_odbc.Response.Model.{Cell, Column, ResultSet, Response}
use frostlake_odbc.Response.Types.{equal_ignoring_case}
use frostlake_odbc.Sql.Ident.{append_ident}
use frostlake_odbc.Bind.Param.{Diag}
use frostlake_odbc.Results.Convert.Model.{diag_record}
use frostlake_odbc.Dbc.{Dbc}
use frostlake_odbc.Proto.Server.{Server}
use frostlake_odbc.Proto.Post.{World}
use frostlake_odbc.Proto.Execute.{answer, failure, Run, execute}
use frostlake_odbc.Statement.Execute.{copy_sql, failure_text}

-- A text argument with its length, which is none for SQL_NTS; none for a NULL pointer.
abbrev pub Arg : Type 0
Arg = Option (Option ℕ × Bytes)

-- What reads the copy reads it up to its first NUL.
unfoldable pub arg_to_string : Arg → Option Bytes
arg_to_string none = none
arg_to_string (some (length, memory)) = some (copy_sql length memory)

unfoldable pub is_empty_or_all : Option Bytes → Bool
is_empty_or_all none = true
is_empty_or_all (some []) = true
is_empty_or_all (some (c ∷ pattern)) = equal (c ∷ pattern) (codes "%")

-- The loop of `append_like`.
unfoldable pub like_body : Bytes → Bytes → Bytes
like_body buf [] = buf
like_body buf (c ∷ pattern) =
    let doubled = if c == b'\'' || c == b'\\' then buf ++ (c ∷ []) else buf in
    like_body (doubled ++ (c ∷ [])) pattern

unfoldable pub append_like : Bytes → Bytes → Bytes → Bytes
append_like buf identifier pattern =
    like_body (((buf ++ codes " AND ") ++ identifier) ++ codes " LIKE '") pattern ++ codes "'"

-- The condition on a column, unless the argument asks for everything.
unfoldable pub like_unless_all : Bytes → Bytes → Option Bytes → Bytes
like_unless_all buf identifier none = buf
like_unless_all buf identifier (some pattern) =
    if is_empty_or_all (some pattern) then buf else append_like buf identifier pattern

-- `strchr(s, c) != NULL`, for a `c` that is not NUL.
unfoldable pub holds : ℕ → Bytes → Bool
holds c [] = false
holds c (d ∷ s) = d == c || holds c s

unfoldable pub with_dot : Option Bytes → Bytes
with_dot none = []
with_dot (some buf) = buf ++ codes "."

-- The catalog in front of a table's name, unless it asks for everything or looks like a pattern.
-- `append_ident` answers for a name that is not empty, so `with_dot` is given a buffer.
unfoldable pub append_catalog : Bytes → Option Bytes → Bytes
append_catalog buf none = buf
append_catalog buf (some catalog) =
    if not (is_empty_or_all (some catalog)) && not (holds b'%' catalog) && not (holds b'_' catalog)
    then with_dot (append_ident buf catalog)
    else buf

-- NULL with the record that was set, or the first result set.
pub data QueryResult : Type 0 where
  refused : Diag → QueryResult
  shown : ResultSet → QueryResult

unfoldable pub first_set : List ResultSet → QueryResult
first_set [] = refused (diag_record (codes "HY000") (codes "Catalog query returned no result set"))
first_set (set ∷ sets) = shown set

unfoldable pub show_response : Option Bytes → List ResultSet → QueryResult
show_response (some message) sets = refused (diag_record (codes "42000") message)
show_response none sets = first_set sets

module _ (server : Server) where
  unfoldable pub show_run : Run server → QueryResult × Dbc × World server
  show_run (failure what, dbc, w) =
      (refused (diag_record (codes "08S01") (failure_text what)), dbc, w)
  show_run (answer r, dbc, w) = (show_response r.error_message r.sets, dbc, w)

  unfoldable pub run_catalog_query : Bytes → Dbc → World server → QueryResult × Dbc × World server
  run_catalog_query sql dbc w = show_run (execute server sql dbc w)

unfoldable pub text_of_cell : Option Cell → Option Bytes
text_of_cell none = none
text_of_cell (some cell) = if cell.is_null then none else cell.text

-- The column is none for -1. A row of the answer has a cell for each of its columns.
unfoldable pub cell_text : ResultSet → ℕ → Option ℕ → Option Bytes
cell_text set row none = none
cell_text set row (some col) =
    if leb set.column_count col
    then none
    else text_of_cell (get_elem? set.cells (row * set.column_count + col))

unfoldable pub index_from : ℕ → List Column → Bytes → Option ℕ
index_from i [] name = none
index_from i (column ∷ columns) name =
    let later = index_from (i + 1) columns name in
    if equal_ignoring_case name column.name then some i else later

unfoldable pub column_index : ResultSet → Bytes → Option ℕ
column_index set name = index_from 0 set.columns name
