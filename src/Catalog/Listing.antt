-- ===== src/Catalog/Listing.antt =====
-- The sets that SQLTables and SQLColumns of src/catalog.c make of the server's answer.
use frostlake_odbc.Base.{
  ℕ, zero, suc, ◌+◌, ◌≡◌, Option, none, some, List, [], ◌∷◌, get_elem?, Bytes, codes, if◌then◌else◌,
  ltb,
}
use frostlake_odbc.Response.Model.{SqlType, ResultSet}
use frostlake_odbc.Statement.Cursor.{cell_at}
use frostlake_odbc.Catalog.Synth.{Entry, entry_cell, synth_column}
use frostlake_odbc.Catalog.Query.{cell_text, column_index}
use frostlake_odbc.Catalog.Tables.{mapped_type, type_wanted, table_entries}

-- The columns are the headers, and row `i` holds the entries that `row_of i` finds.
unfoldable pub Shows : List (Bytes × SqlType) → (ℕ → Option (List Entry)) → ResultSet → Type 0
Shows headers row_of set =
    (i c : ℕ) (entries : List Entry) (e : Entry) (header : Bytes × SqlType)
    → row_of i ≡ some entries
    → get_elem? entries c ≡ some e
    → get_elem? headers c ≡ some header
    → cell_at set i c ≡ some (synth_column header, entry_cell e)

abbrev pub kind_of : ResultSet → ℕ → Option Bytes
kind_of answer r = mapped_type (cell_text answer r (column_index answer (codes "table_type")))

-- The rows of the listing whose type is asked for, in the order of the listing, from number `r` on.
unfoldable pub wanted_rows : Option Bytes → ResultSet → ℕ → ℕ → List ℕ
wanted_rows kinds answer r zero = []
wanted_rows kinds answer r (suc left) =
    let later = wanted_rows kinds answer (r + 1) left in
    if type_wanted kinds (kind_of answer r) then r ∷ later else later

unfoldable pub entries_of : ResultSet → ℕ → List Entry
entries_of answer r = table_entries answer r (kind_of answer r)

-- The entries of row `i` of a loop without `continue`.
unfoldable pub nth_row : ℕ → (ℕ → List Entry) → ℕ → Option (List Entry)
nth_row count f i = if ltb i count then some (f i) else none
