-- ===== src/Catalog/Synth.antt =====
-- The synthesised result sets of src/util.c (`fl_synth_new` to `fl_synth_null`), and
-- `install_synth` of src/catalog.c.
pub mod Fill
pub mod Made
pub mod Cells
use frostlake_odbc.Base.{
  ℕ, zero, suc, ◌+◌, ◌-◌, ◌*◌, Bool, true, false, Option, none, some, List, [], ◌∷◌, ltb,
  if◌then◌else◌, Bytes, codes, length, replicate,
}
use frostlake_odbc.Base.Int.{ℤ, pos}
use frostlake_odbc.Response.Model.{
  SqlType, varchar, integer, smallint, Kind, text, number, Cell, Column, ResultSet,
}
use frostlake_odbc.Bind.Param.{signed_decimal}
use frostlake_odbc.Statement.State.{Stmt, clear_results}

-- What calloc leaves: a cell with no text that is not NULL.
unfoldable pub blank_cell : Cell
blank_cell = record { text = none; kind = Kind.text; is_null = false }

-- `fl_synth_column`
unfoldable pub synth_column : Bytes × SqlType → Column
synth_column (name, type) = record {
  name = name;
  type_name =
      some (elim type [
        | smallint ↦ codes "SMALLINT"
        | integer ↦ codes "INTEGER"
        | _ ↦ codes "VARCHAR"
      ]);
  sql_type = type;
  precision = pos 0;
  scale = pos 0;
  length = pos 0;
}

unfoldable pub synth_columns : List (Bytes × SqlType) → List Column
synth_columns [] = []
synth_columns (header ∷ headers) = synth_column header ∷ synth_columns headers

-- `fl_synth_new` for as many columns as there are headers, and `fl_synth_column` for each. The
-- cells are the whole array, of which `row_count` rows are in use.
unfoldable pub synth_new : List (Bytes × SqlType) → ℕ → ResultSet
synth_new headers row_capacity = record {
  columns = synth_columns headers;
  column_count = length headers;
  cells = replicate (length headers * (if ltb 0 row_capacity then row_capacity else 1)) blank_cell;
  row_count = 0;
}

-- `fl_synth_add_row`, which answers the number of the row.
unfoldable pub add_row : ResultSet → ResultSet × ℕ
add_row set = (record set { row_count = set.row_count + 1 }, set.row_count + 1 - 1)

-- The arguments of `fl_synth_text`, `fl_synth_int` and `fl_synth_null`.
pub data Entry : Type 0 where
  of_text : Bytes → Entry
  of_int : ℤ → Entry
  of_null : Entry

unfoldable pub entry_cell : Entry → Cell
entry_cell (of_text s) = record { text = some s; kind = Kind.text; is_null = false }
entry_cell (of_int z) = record {
  text = some (signed_decimal z);
  kind = Kind.number;
  is_null = false;
}
entry_cell of_null = record { text = none; kind = Kind.text; is_null = true }

-- A write into an array; none is a write out of bounds.
unfoldable pub write {ℓ} : {A : Type ℓ} → List A → ℕ → A → Option (List A)
write [] i a = none
write (x ∷ xs) zero a = some (a ∷ xs)
write (x ∷ xs) (suc i) a = elim (write xs i a) [ none ↦ none | some ys ↦ some (x ∷ ys) ]

unfoldable pub with_cells : ResultSet → Option (List Cell) → Option ResultSet
with_cells set none = none
with_cells set (some cells) = some (record set { cells = cells })

-- `fl_synth_text`, `fl_synth_int` or `fl_synth_null`, by the entry.
unfoldable pub put_entry : ResultSet → ℕ → ℕ → Entry → Option ResultSet
put_entry set row col e =
    with_cells set (write set.cells (row * set.column_count + col) (entry_cell e))

-- A write out of bounds ends what follows it.
unfoldable pub then_put : Option ResultSet → (ResultSet → Option ResultSet) → Option ResultSet
then_put none next = none
then_put (some set) next = next set

-- The calls that fill one row, from column `col` on.
unfoldable pub put_row : List Entry → ResultSet → ℕ → ℕ → Option ResultSet
put_row [] set row col = some set
put_row (e ∷ entries) set row col =
    then_put (put_entry set row col e) (λ put. put_row entries put row (col + 1))

-- A round of the loop over the rows of an answer: `continue`, or a row that is added and filled.
unfoldable pub put_made : Option (List Entry) → ResultSet → Option ResultSet
put_made none set = some set
put_made (some entries) set = put_row entries (add_row set).0 (add_row set).1 0

-- `left` rounds from number `r` on. What a round adds depends on its number and on the number of
-- the row that it would add.
unfoldable pub fill : (ℕ → ℕ → Option (List Entry)) → ℕ → ℕ → ResultSet → Option ResultSet
fill make r zero set = some set
fill make r (suc left) set =
    then_put (put_made (make r set.row_count) set) (λ put. fill make (r + 1) left put)

-- `fl_stmt_clear_results` leaves current_row at -1.
unfoldable pub install_synth : ResultSet → Stmt → Stmt
install_synth set s = record (clear_results s) { synth = some set; row_count = pos set.row_count }
