-- ===== src/Statement/Cursor/Value.antt =====
-- What SQLGetData of src/results.c converts, once it has found the row and the column.
use frostlake_odbc.Base.{ℕ, ◌-◌, ◌≡◌, ◌<◌, refl, arith, true, some}
use frostlake_odbc.Response.Model.{Column, Cell, ResultSet}
use frostlake_odbc.Results.Convert.{convert_cell}
use frostlake_odbc.Results.Convert.Model.{CType, Buffer}
use frostlake_odbc.Statement.State.{Stmt, stmt_current_set}
use frostlake_odbc.Statement.Cursor.{
  cell_at, convert_found, is_positioned, column_index, seek, got, get_column, get_data_from,
  get_data,
}

pub on_row :
    (s : Stmt) (set : ResultSet) → is_positioned s set ≡ true → s.next_row - 1 < set.row_count
unfolding is_positioned
on_row s set e = ground arith

-- For a call that has found the cursor on a row and the column's number valid.
pub get_data-found :
    (number : ℕ) (c : CType) (b : Buffer) (s : Stmt) {set : ResultSet} {i : ℕ} {column : Column}
    {cell : Cell}
    → stmt_current_set s ≡ some set
    → is_positioned s set ≡ true
    → column_index set number ≡ some i
    → cell_at set (s.next_row - 1) i ≡ some (column, cell)
    → get_data number c b s
      ≡ got (seek number s) (convert_cell column cell c b (seek number s).getdata_offset)
unfolding get_data get_data_from get_column convert_found
get_data-found number c b s e p k f = rw (e, p, k, f) refl
