-- ===== src/Catalog/Tests.antt =====
-- The catalog functions on concrete answers.
use frostlake_odbc.Base.{
  ℕ, ◌+◌, ◌≡◌, refl, true, false, none, some, [], ◌∷◌, ◌++◌, Bytes, codes, arith, length, equal,
}
use frostlake_odbc.Base.Int.{pos}
use frostlake_odbc.Response.Model.{varchar, Kind, Cell, Column, ResultSet}
use frostlake_odbc.Response.Types.{equal_ignoring_case}
use frostlake_odbc.Sql.Ident.{to_upper}
use frostlake_odbc.Sql.Scanner.{skip, is_lower}
use frostlake_odbc.Sql.Literal.{append_string_literal}
use frostlake_odbc.Dbc.{alloc_dbc}
use frostlake_odbc.Proto.Server.{Server, answered}
use frostlake_odbc.Statement.State.{alloc_stmt}
use frostlake_odbc.Statement.Execute.{Handle}
use frostlake_odbc.Catalog.Query.{
  append_like, is_empty_or_all, cell_text, column_index, index_from, text_of_cell,
}
use frostlake_odbc.Catalog.Query.Like.{append_like-literal}
use frostlake_odbc.Catalog.TypeList.{
  is_between, skip_between, ends_name, read_name, all_spaces, trim_spaces, names_wanted,
  list_wanted, type_list_contains,
}
use frostlake_odbc.Catalog.TypeList.Printed.{
  print_types, print_type, names_one, IsTypeName, LastPlain,
}
use frostlake_odbc.Catalog.TypeList.Wanted.{type_list_contains-print_types}
use frostlake_odbc.Catalog.Tables.{mapped_type, type_wanted}
use frostlake_odbc.Catalog.Call.{CatalogCall, ask_tables, catalog_call}
use frostlake_odbc.Catalog.Outcome.{HasOutcome, catalog_call-HasOutcome}
use frostlake_odbc.Catalog.Listing.{wanted_rows}

abbrev named : Bytes → Column
named name = record {
  name = name;
  type_name = none;
  sql_type = varchar;
  precision = pos 0;
  scale = pos 0;
  length = pos 0;
}

abbrev said : Bytes → Cell
said s = record { text = some s; kind = Kind.text; is_null = false }

-- A table and a view.
abbrev listing : ResultSet
listing = record {
  columns = named (codes "TABLE_NAME") ∷ named (codes "table_type") ∷ [];
  column_count = 2;
  cells =
      said (codes "T") ∷ said (codes "base table") ∷ said (codes "V") ∷ said (codes "VIEW") ∷ [];
  row_count = 2;
}

-- Only the view is asked for.
view_row : wanted_rows (some (codes "'VIEW'")) listing 0 2 ≡ 1 ∷ []
unfolding wanted_rows mapped_type cell_text column_index index_from text_of_cell equal_ignoring_case
    to_upper is_lower type_wanted type_list_contains is_empty_or_all equal list_wanted names_wanted
    skip_between is_between read_name ends_name trim_spaces all_spaces
view_row = refl

-- An engine whose answers are no JSON.
abbrev mute : Server
mute = record {
  State = ℕ;
  post_execute = λ n body. (answered 200 [], n + 1);
  delete_path = λ n path limit. n;
}

abbrev idle : Handle mute
idle = record { stmt = alloc_stmt; dbc = alloc_dbc; world = record { state = 0; posted = [] } }

abbrev any_table : CatalogCall
any_table = ask_tables none none (some (none, codes "T%")) none

catalog_call-HasOutcome_example : HasOutcome mute idle (catalog_call mute idle any_table)
catalog_call-HasOutcome_example = catalog_call-HasOutcome mute idle any_table

append_like-literal_example :
    (append_like (codes "SELECT 1") (codes "a") (codes "'\\")
      ≡ codes "SELECT 1"
        ++ (codes " AND "
            ++ (codes "a" ++ (codes " LIKE " ++ append_string_literal [] (codes "'\\")))))
    × (skip (append_string_literal [] (codes "'\\") ++ codes " x") ≡ some (codes " x"))
append_like-literal_example =
    append_like-literal (codes "SELECT 1") (codes "a") (codes "'\\") (codes " x")
      ((omega arith), ((omega arith), tt)) (λ e. omega arith)

type_list_contains-print_types_example :
    type_list_contains
      (some (print_types ((true, codes "TABLE") ∷ (true, codes "VIEW") ∷ [])))
      (codes "view")
    ≡ names_one (codes "view") ((true, codes "TABLE") ∷ (true, codes "VIEW") ∷ [])
type_list_contains-print_types_example =
    type_list_contains-print_types (true, codes "TABLE") ((true, codes "VIEW") ∷ []) (codes "view")
      (λ e. ground arith) (unfold IsTypeName LastPlain in omega arith)
      ((unfold IsTypeName LastPlain in omega arith, tt))
      (unfold is_empty_or_all print_types print_type equal in refl)
