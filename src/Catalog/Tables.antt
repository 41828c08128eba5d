-- ===== src/Catalog/Tables.antt =====
-- SQLTables of src/catalog.c.
use frostlake_odbc.Base.{
  ℕ, zero, suc, Bool, true, false, ◌&&◌, Option, none, some, List, [], ◌∷◌, ◌++◌, if◌then◌else◌,
  Bytes, codes, equal,
}
use frostlake_odbc.Response.Model.{SqlType, varchar, ResultSet}
use frostlake_odbc.Response.Types.{equal_ignoring_case}
use frostlake_odbc.Response.Decode.{or_empty}
use frostlake_odbc.Dbc.{Dbc}
use frostlake_odbc.Results.Convert.Model.{success, failed}
use frostlake_odbc.Proto.Server.{Server}
use frostlake_odbc.Proto.Post.{World}
use frostlake_odbc.Statement.State.{Stmt}
use frostlake_odbc.Statement.Execute.{Handle, Called, report}
use frostlake_odbc.Catalog.Synth.{Entry, of_text, of_null, synth_new, fill, install_synth}
use frostlake_odbc.Catalog.Query.{
  Arg, arg_to_string, is_empty_or_all, append_catalog, like_unless_all, QueryResult, refused, shown,
  run_catalog_query, cell_text, column_index,
}
use frostlake_odbc.Catalog.TypeList.{type_list_contains}

-- TABLES_COLUMNS, with the type that `tables_shape` gives.
abbrev pub tables_columns : List (Bytes × SqlType)
tables_columns =
    (codes "TABLE_CAT", varchar)
    ∷ (codes "TABLE_SCHEM", varchar)
    ∷ (codes "TABLE_NAME", varchar)
    ∷ (codes "TABLE_TYPE", varchar)
    ∷ (codes "REMARKS", varchar)
    ∷ []

unfoldable pub tables_shape : ℕ → ResultSet
tables_shape row_capacity = synth_new tables_columns row_capacity

-- The text, or NULL when there is none.
unfoldable pub text_or_null : Option Bytes → Entry
text_or_null none = of_null
text_or_null (some s) = of_text s

-- The arguments of SQLTables.
pub record TablesArgs : Type 0 where
  pub catalog : Option Bytes
  pub schema : Option Bytes
  pub table : Option Bytes
  pub types : Option Bytes

-- A text that is there and empty, and one that is there and is "%".
unfoldable pub is_given_empty : Option Bytes → Bool
is_given_empty none = false
is_given_empty (some s) = equal s []

unfoldable pub is_percent : Option Bytes → Bool
is_percent none = false
is_percent (some s) = equal s (codes "%")

unfoldable pub asks_catalogs : TablesArgs → Bool
asks_catalogs args =
    is_percent args.catalog && is_given_empty args.schema && is_given_empty args.table

unfoldable pub asks_types : TablesArgs → Bool
asks_types args =
    is_percent args.types
    && is_empty_or_all args.catalog
    && is_empty_or_all args.schema
    && is_empty_or_all args.table
    && equal (or_empty args.catalog) []

unfoldable pub catalog_entries : ResultSet → ℕ → List Entry
catalog_entries answer r =
    of_text (or_empty (cell_text answer r (column_index answer (codes "name"))))
    ∷ of_null
    ∷ of_null
    ∷ of_null
    ∷ of_null
    ∷ []

unfoldable pub kind_entries : Bytes → List Entry
kind_entries kind = of_null ∷ of_null ∷ of_null ∷ of_text kind ∷ of_null ∷ []

unfoldable pub tables_sql : TablesArgs → Bytes
tables_sql args =
    let start = codes "SELECT table_catalog, table_schema, table_name, table_type FROM " in
    let from = append_catalog start args.catalog ++ codes "information_schema.tables WHERE 1=1" in
    let in_schema = like_unless_all from (codes "table_schema") args.schema in
    like_unless_all in_schema (codes "table_name") args.table
    ++ codes " ORDER BY table_schema, table_name"

-- "BASE TABLE" is reported as TABLE.
unfoldable pub mapped_type : Option Bytes → Option Bytes
mapped_type none = none
mapped_type (some raw) =
    if equal_ignoring_case (codes "BASE TABLE") raw then some (codes "TABLE") else some raw

unfoldable pub type_wanted : Option Bytes → Option Bytes → Bool
type_wanted types none = true
type_wanted types (some kind) = type_list_contains types kind

unfoldable pub type_text : Option Bytes → Bytes
type_text none = codes "TABLE"
type_text (some kind) = kind

unfoldable pub table_entries : ResultSet → ℕ → Option Bytes → List Entry
table_entries answer r kind =
    text_or_null (cell_text answer r (column_index answer (codes "table_catalog")))
    ∷ text_or_null (cell_text answer r (column_index answer (codes "table_schema")))
    ∷ of_text (or_empty (cell_text answer r (column_index answer (codes "table_name"))))
    ∷ of_text (type_text kind)
    ∷ of_null
    ∷ []

-- A round of the loop over the listing; none is `continue`.
unfoldable pub table_round : Option Bytes → ResultSet → ℕ → Option (List Entry)
table_round types answer r =
    let kind = mapped_type (cell_text answer r (column_index answer (codes "table_type"))) in
    if type_wanted types kind then some (table_entries answer r kind) else none

unfoldable pub kind_round : ℕ → Option (List Entry)
kind_round zero = some (kind_entries (codes "TABLE"))
kind_round (suc r) = some (kind_entries (codes "VIEW"))

unfoldable pub list_catalogs : ResultSet → Option ResultSet
list_catalogs answer =
    fill (λ r row. some (catalog_entries answer r)) 0 answer.row_count
      (tables_shape answer.row_count)

unfoldable pub list_types : Option ResultSet
list_types = fill (λ r row. kind_round r) 0 2 (tables_shape 2)

unfoldable pub list_tables : Option Bytes → ResultSet → Option ResultSet
list_tables types answer =
    fill (λ r row. table_round types answer r) 0 answer.row_count (tables_shape answer.row_count)

module _ (server : Server) where
  -- None is a write out of bounds.
  unfoldable pub installed : Option ResultSet → Stmt → Dbc → World server → Option (Called server)
  installed none s dbc w = none
  installed (some set) s dbc w = some (report server success (install_synth set s) dbc w)

  -- What follows a query: its record, or the set that is made of its answer.
  unfoldable pub rebuild :
      (ResultSet → Option ResultSet)
      → Stmt
      → QueryResult × Dbc × World server
      → Option (Called server)
  rebuild build s (refused d, dbc, w) = some (report server (failed d) s dbc w)
  rebuild build s (shown answer, dbc, w) = installed (build answer) s dbc w

  unfoldable pub tables_of : Handle server → TablesArgs → Option (Called server)
  tables_of h args =
      if asks_catalogs args
      then rebuild list_catalogs h.stmt
          (run_catalog_query server (codes "SHOW DATABASES") h.dbc h.world)
      else if asks_types args
      then installed list_types h.stmt h.dbc h.world
      else rebuild (list_tables args.types) h.stmt
          (run_catalog_query server (tables_sql args) h.dbc h.world)

  unfoldable pub tables : Handle server → Arg → Arg → Arg → Arg → Option (Called server)
  tables h catalog schema table types = tables_of h (record {
    catalog = arg_to_string catalog;
    schema = arg_to_string schema;
    table = arg_to_string table;
    types = arg_to_string types;
  })
