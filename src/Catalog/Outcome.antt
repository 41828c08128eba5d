-- ===== src/Catalog/Outcome.antt =====
-- What the calls of src/catalog.c leave on the statement.
use frostlake_odbc.Base.{
  ℕ, zero, suc, ◌≤◌, ◌≡◌, ◌⊎◌, Bool-cases, codes, inl, inr, refl, arith, Bool, true, false,
  if◌then◌else◌, Option, none, some, List, Bytes, length, get_elem?,
}
use frostlake_odbc.Base.Int.{ℤ}
use frostlake_odbc.Bind.Param.{Diag}
use frostlake_odbc.Response.Model.{SqlType, ResultSet}
use frostlake_odbc.Response.Shape.{Covers}
use frostlake_odbc.Dbc.{Dbc}
use frostlake_odbc.Results.Convert.Model.{success, failed}
use frostlake_odbc.Proto.Server.{Server}
use frostlake_odbc.Proto.Post.{World}
use frostlake_odbc.Statement.State.{set_diag}
use frostlake_odbc.Statement.Execute.{Handle, Called, report}
use frostlake_odbc.Catalog.Synth.{Entry, synth_new, fill, install_synth}
use frostlake_odbc.Catalog.Synth.Fill.{Wide}
use frostlake_odbc.Catalog.Synth.Made.{fill-synth_new, made-Covers, synth_new-Covers}
use frostlake_odbc.Catalog.Query.{cell_text, column_index, QueryResult, refused, shown}
use frostlake_odbc.Catalog.Tables.{
  TablesArgs, asks_catalogs, asks_types, catalog_entries, kind_round, kind_entries, type_wanted,
  table_round, table_entries, tables_shape, tables_columns, list_catalogs, list_types, list_tables,
  installed, rebuild, tables_of, tables, mapped_type,
}
use frostlake_odbc.Catalog.Columns.{
  columns_columns, column_entries, list_columns, columns_of, columns,
}
use frostlake_odbc.Catalog.Types.{
  TypeRow, type_rows, type_asked, type_round, type_entries, type_info_columns, list_type_info,
  all_varchar, get_type_info, empty_result, statistics, special_columns, primary_keys,
}
use frostlake_odbc.Catalog.Call.{
  CatalogCall, ask_tables, ask_columns, ask_type_info, ask_statistics, ask_special_columns,
  ask_primary_keys, catalog_call,
}

-- A set is made, within its array.
unfoldable pub Builds : Option ResultSet → Type 0
Builds none = ⊥
Builds (some set) = Covers set

fill-Builds :
    (headers : List (Bytes × SqlType)) (make : ℕ → ℕ → Option (List Entry)) (capacity left : ℕ)
    → ((r row : ℕ) → Wide (length headers) (make r row))
    → left ≤ capacity
    → Builds (fill make 0 left (synth_new headers capacity))
unfolding Builds
fill-Builds headers make capacity left w l =
    rw (fill-synth_new headers make capacity left w l) (made-Covers headers make capacity left w)

pub table_round-Wide :
    (kinds : Option Bytes) (answer : ResultSet) (r : ℕ) → Wide 5 (table_round kinds answer r)
unfolding table_round
table_round-Wide kinds answer r =
    kept (type_wanted kinds kind) (table_entries answer r kind) (unfold table_entries in refl)
  where
    kind : Option Bytes
    kind = mapped_type (cell_text answer r (column_index answer (codes "table_type")))

    kept :
        (b : Bool) (entries : List Entry)
        → length entries ≡ 5
        → Wide 5 (if b then some entries else none)
    kept true entries h = unfold Wide in h
    kept false entries h = unfold Wide in tt

kind_round-Wide : (r : ℕ) → Wide 5 (kind_round r)
unfolding kind_round kind_entries Wide
kind_round-Wide zero = refl
kind_round-Wide (suc r) = refl

type_round-Wide : (wanted : ℤ) (t : Option TypeRow) → Wide 19 (type_round wanted t)
unfolding type_round Wide
type_round-Wide wanted none = tt
type_round-Wide wanted (some t) = elim (Bool-cases (type_asked wanted t.data_type)) [
  | inl e ↦ rw e (unfold type_entries in refl)
  | inr e ↦ rw e tt
]

pub list_catalogs-Builds : (answer : ResultSet) → Builds (list_catalogs answer)
unfolding list_catalogs tables_shape
list_catalogs-Builds answer =
    fill-Builds tables_columns _ _ _ (λ r row. unfold Wide catalog_entries in refl) (omega arith)

pub list_types-Builds : Builds list_types
unfolding list_types tables_shape
list_types-Builds = fill-Builds tables_columns _ _ _ (λ r row. kind_round-Wide r) (omega arith)

pub list_tables-Builds :
    (kinds : Option Bytes) (answer : ResultSet) → Builds (list_tables kinds answer)
unfolding list_tables tables_shape
list_tables-Builds kinds answer =
    fill-Builds tables_columns _ _ _ (λ r row. table_round-Wide kinds answer r) (omega arith)

pub list_columns-Builds : (answer : ResultSet) → Builds (list_columns answer)
unfolding list_columns
list_columns-Builds answer =
    fill-Builds columns_columns _ _ _ (λ r row. unfold Wide column_entries in refl) (ground arith)

pub list_type_info-Builds : (wanted : ℤ) → Builds (list_type_info wanted)
unfolding list_type_info
list_type_info-Builds wanted =
    fill-Builds type_info_columns _ _ _ (λ r row. type_round-Wide wanted (get_elem? type_rows r))
      (omega arith)

module _ (server : Server) (h : Handle server) where
  -- The statement keeps its results and gets the record that is answered.
  unfoldable pub IsRefusal : Called server → Type 0
  IsRefusal called =
      (d : Diag) × (called.1 ≡ failed d) × (called.0.stmt ≡ set_diag (failed d) h.stmt)

  -- The results of the statement are a set of the driver's own, whose rows lie within its array.
  unfoldable pub IsListing : Called server → Type 0
  IsListing called =
      (set : ResultSet) × Covers set
      × (called.1 ≡ success)
      × (called.0.stmt ≡ set_diag success (install_synth set h.stmt))

  unfoldable pub HasOutcome : Option (Called server) → Type 0
  HasOutcome none = ⊥
  HasOutcome (some called) = IsRefusal called ⊎ IsListing called

  installed-HasOutcome :
      (o : Option ResultSet) (dbc : Dbc) (w : World server)
      → Builds o
      → HasOutcome (installed server o h.stmt dbc w)
  unfolding Builds installed report HasOutcome IsListing
  installed-HasOutcome none dbc w b = b
  installed-HasOutcome (some set) dbc w b = inr (set, b, refl, refl)

  rebuild-HasOutcome :
      (build : ResultSet → Option ResultSet) (p : QueryResult × Dbc × World server)
      → ((answer : ResultSet) → Builds (build answer))
      → HasOutcome (rebuild server build h.stmt p)
  unfolding rebuild report
  rebuild-HasOutcome build (refused d, dbc, w) b =
      unfold HasOutcome IsRefusal in inl (d, refl, refl)
  rebuild-HasOutcome build (shown answer, dbc, w) b =
      installed-HasOutcome (build answer) dbc w (b answer)

  tables_of-HasOutcome : (args : TablesArgs) → HasOutcome (tables_of server h args)
  unfolding tables_of
  tables_of-HasOutcome args = elim (Bool-cases (asks_catalogs args)) [
    | inl e ↦ rw e (rebuild-HasOutcome list_catalogs _ list_catalogs-Builds)
    | inr e ↦ rw e (elim (Bool-cases (asks_types args)) [
      | inl k ↦ rw k (installed-HasOutcome list_types _ _ list_types-Builds)
      | inr k ↦ rw k (rebuild-HasOutcome (list_tables args.types) _ (list_tables-Builds args.types))
    ])
  ]

  empty_result-HasOutcome : (names : List Bytes) → HasOutcome (empty_result server h names)
  unfolding empty_result
  empty_result-HasOutcome names =
      installed-HasOutcome _ _ _ (unfold Builds in synth_new-Covers (all_varchar names) 1)

-- Whatever the arguments and whatever the server answers, a catalog function writes no cell out
-- of the array that it has allocated, and either answers an error, with the statement's results
-- as they were, or succeeds, with the statement's results replaced by one set that the driver has
-- put together, whose rows lie within its array and in front of which the cursor stands.
pub catalog_call-HasOutcome :
    (server : Server) (h : Handle server) (call : CatalogCall)
    → HasOutcome server h (catalog_call server h call)
unfolding catalog_call
catalog_call-HasOutcome server h (ask_tables catalog schema table kinds) =
    unfold tables in tables_of-HasOutcome server h _
catalog_call-HasOutcome server h (ask_columns catalog schema table column) =
    unfold columns columns_of in rebuild-HasOutcome server h list_columns _ list_columns-Builds
catalog_call-HasOutcome server h (ask_type_info wanted) =
    unfold get_type_info in installed-HasOutcome server h _ _ _ (list_type_info-Builds wanted)
catalog_call-HasOutcome server h ask_statistics =
    unfold statistics in empty_result-HasOutcome server h _
catalog_call-HasOutcome server h ask_special_columns =
    unfold special_columns in empty_result-HasOutcome server h _
catalog_call-HasOutcome server h ask_primary_keys =
    unfold primary_keys in empty_result-HasOutcome server h _
