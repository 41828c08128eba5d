-- ===== src/Catalog/Call.antt =====
-- The catalog functions of src/catalog.c as calls on a statement.
use frostlake_odbc.Base.{Option}
use frostlake_odbc.Base.Int.{ℤ}
use frostlake_odbc.Proto.Server.{Server}
use frostlake_odbc.Statement.Execute.{Handle, Called}
use frostlake_odbc.Catalog.Query.{Arg}
use frostlake_odbc.Catalog.Tables.{tables}
use frostlake_odbc.Catalog.Columns.{columns}
use frostlake_odbc.Catalog.Types.{get_type_info, statistics, special_columns, primary_keys}

-- The arguments that SQLStatistics, SQLSpecialColumns and SQLPrimaryKeys ignore are left out.
pub data CatalogCall : Type 0 where
  ask_tables ask_columns : Arg → Arg → Arg → Arg → CatalogCall
  ask_type_info : ℤ → CatalogCall
  ask_statistics ask_special_columns ask_primary_keys : CatalogCall

unfoldable pub catalog_call :
    (server : Server) → Handle server → CatalogCall → Option (Called server)
catalog_call server h (ask_tables catalog schema table types) =
    tables server h catalog schema table types
catalog_call server h (ask_columns catalog schema table column) =
    columns server h catalog schema table column
catalog_call server h (ask_type_info wanted) = get_type_info server h wanted
catalog_call server h ask_statistics = statistics server h
catalog_call server h ask_special_columns = special_columns server h
catalog_call server h ask_primary_keys = primary_keys server h
