-- ===== src/Statement/Rows.antt =====
-- `fl_rows_affected` of src/util.c, and the row count that a statement reports.
use frostlake_odbc.Base.{
  ℕ, Bool, true, false, Option, none, some, List, [], ◌∷◌, leb, if◌then◌else◌, Bytes, codes,
}
use frostlake_odbc.Base.Int.{ℤ, pos, negsuc, ◌+ℤ◌}
use frostlake_odbc.Response.Model.{Cell, Column, ResultSet}
use frostlake_odbc.Response.Types.{starts_ignoring_case}
use frostlake_odbc.Response.Decode.{strtol}

-- What one cell adds: nothing, when it is NULL.
unfoldable pub report_of : Bool → Option Bytes → Option ℤ
report_of true text = none
report_of false none = none
report_of false (some text) = some (strtol text)

unfoldable pub add_report : Option ℤ → Option ℤ → Option ℤ
add_report none total = total
add_report (some n) none = some n
add_report (some n) (some total) = some (total +ℤ n)

-- The loop over the columns and the cells of the first row; the total is none until one is found.
unfoldable pub sum_reports : Option ℤ → List Column → List Cell → Option ℤ
sum_reports total [] cells = total
sum_reports total (col ∷ columns) [] = total
sum_reports total (col ∷ columns) (cell ∷ cells) =
    sum_reports
      (if starts_ignoring_case (codes "number of rows") col.name
        then add_report (report_of cell.is_null cell.text) total
        else total)
      columns cells

unfoldable pub or_minus_one : Option ℤ → ℤ
or_minus_one none = negsuc 0
or_minus_one (some n) = n

unfoldable pub rows_affected : ResultSet → ℤ
rows_affected set =
    if leb set.row_count 0 then negsuc 0 else or_minus_one (sum_reports none set.columns set.cells)

-- `affected >= 0 ? affected : set->row_count`
unfoldable pub reported : ℕ → ℤ → ℤ
reported rows (pos n) = pos n
reported rows (negsuc n) = pos rows

unfoldable pub row_count_of : Option ResultSet → ℤ
row_count_of none = pos 0
row_count_of (some set) = reported set.row_count (rows_affected set)
