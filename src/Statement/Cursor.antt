-- ===== src/Statement/Cursor.antt =====
-- The cursor of src/results.c: SQLBindCol, SQLFetch, SQLFetchScroll and SQLGetData.
pub mod Scan
pub mod Value
pub mod Pieces
use frostlake_odbc.Base.{
  ℕ, zero, suc, ◌+◌, ◌-◌, ◌*◌, ◌%◌, Bool, true, false, ◌&&◌, ◌||◌, Option, none, some, List, [],
  ◌∷◌, ◌==◌, leb, ltb, if◌then◌else◌, codes, get_elem?,
}
use frostlake_odbc.Response.Model.{Cell, Column, ResultSet}
use frostlake_odbc.Results.Convert.{convert_cell}
use frostlake_odbc.Results.Convert.Model.{
  CType, Return, success, no_more, with_info, failed, Buffer, Conversion, Converted, fail, when,
}
use frostlake_odbc.Statement.State.{
  BoundCol, Stmt, stmt_current_set, set_diag, reply, error, put_slot,
}

-- A buffer that is NULL unbinds the column.
unfoldable pub bind_col : ℕ → CType → Buffer → Stmt → Stmt × Return
bind_col zero c b s = reply (error (codes "07009") (codes "Invalid column number")) s
bind_col (suc i) c b s = reply success (record s {
  bound_cols = put_slot none s.bound_cols i (when b.present (record { c_type = c; buffer = b }));
})

unfoldable pub both_found : Option Column → Option Cell → Option (Column × Cell)
both_found (some column) (some cell) = some (column, cell)
both_found _ _ = none

-- What the array accesses find for a row and a column from 0 on; none is an access out of bounds.
unfoldable pub cell_at : ResultSet → ℕ → ℕ → Option (Column × Cell)
cell_at set row col =
    both_found (get_elem? set.columns col) (get_elem? set.cells (row * set.column_count + col))

unfoldable pub convert_found : Option (Column × Cell) → CType → Buffer → ℕ → Converted
convert_found none c b from = none
convert_found (some (column, cell)) c b from = convert_cell column cell c b from

pub data RowStatus : Type 0 where
  row_success row_norow : RowStatus

-- What a fetch writes through the two pointers, and each column's conversion with its number.
pub record Fetched : Type 0 where
  pub rows : Option ℕ
  pub status : Option RowStatus
  pub delivered : List (ℕ × Conversion)

-- The loop goes on with the return code so far, or ends with a code that is no success.
unfoldable pub after_column :
    (Return → Option (Return × List (ℕ × Conversion)))
    → ℕ
    → Conversion
    → Return
    → Return
    → Option (Return × List (ℕ × Conversion))
after_column next i conversion rc (failed d) = some (failed d, (i, conversion) ∷ [])
after_column next i conversion rc no_more = some (no_more, (i, conversion) ∷ [])
after_column next i conversion rc success = elim (next rc) [
  | none ↦ none
  | some found ↦ some (found.0, (i, conversion) ∷ found.1)
]
after_column next i conversion rc (with_info d) = elim (next (with_info d)) [
  | none ↦ none
  | some found ↦ some (found.0, (i, conversion) ∷ found.1)
]

-- The loop over the bound columns from number `i` on; none is a read out of bounds.
unfoldable pub deliver_bound :
    ResultSet → ℕ → ℕ → List (Option BoundCol) → Return → Option (Return × List (ℕ × Conversion))
deliver_bound set row i [] rc = some (rc, [])
deliver_bound set row i (none ∷ bounds) rc = deliver_bound set row (i + 1) bounds rc
deliver_bound set row i (some bound ∷ bounds) rc =
    if ltb i set.column_count
    then elim (convert_found (cell_at set row i) bound.c_type bound.buffer 0) [
      | none ↦ none
      | some conversion ↦
          after_column (deliver_bound set row (i + 1) bounds) i conversion rc conversion.code
    ]
    else some (rc, [])

unfoldable pub fetch_limit : ResultSet → ℕ → ℕ
fetch_limit set max_rows =
    if ltb 0 max_rows && ltb max_rows set.row_count then max_rows else set.row_count

-- Past the end of the set, and not of the limit.
unfoldable pub park : ResultSet → Stmt → Stmt
park set s = set_diag no_more (record s { next_row = set.row_count + 1 })

unfoldable pub advance : Stmt → Stmt
advance s = record s { next_row = s.next_row + 1; getdata_col = none; getdata_offset = 0 }

unfoldable pub fetch_row :
    Stmt → Option (Return × List (ℕ × Conversion)) → Option (Stmt × Return × Fetched)
fetch_row s none = none
fetch_row s (some (code, delivered)) = some (
  set_diag code s,
  code,
  record {
    rows = when s.rows_fetched_ptr 1;
    status = when s.row_status_ptr row_success;
    delivered = delivered;
  },
)

unfoldable pub fetch_from : Stmt → Option ResultSet → Option (Stmt × Return × Fetched)
fetch_from s none =
    let code = error (codes "24000") (codes "No result set") in
    some (set_diag code s, code, record { rows = none; status = none; delivered = [] })
fetch_from s (some set) =
    if leb (fetch_limit set s.max_rows) s.next_row
    then some (
      park set s,
      no_more,
      record {
        rows = when s.rows_fetched_ptr 0;
        status = when s.row_status_ptr row_norow;
        delivered = [];
      },
    )
    else fetch_row (advance s) (deliver_bound set s.next_row 0 s.bound_cols success)

unfoldable pub fetch : Stmt → Option (Stmt × Return × Fetched)
fetch s = fetch_from s (stmt_current_set s)

-- `next` is the orientation SQL_FETCH_NEXT.
unfoldable pub fetch_scroll : Bool → Stmt → Option (Stmt × Return × Fetched)
fetch_scroll true s = fetch s
fetch_scroll false s =
    let code = error (codes "HY106") (codes "Only SQL_FETCH_NEXT is supported") in
    some (set_diag code s, code, record { rows = none; status = none; delivered = [] })

-- `column_at` with the cast to SQLUSMALLINT; the number of the column, from 0 on.
unfoldable pub column_index : ResultSet → ℕ → Option ℕ
column_index set zero = none
column_index set (suc i) = if leb (set.column_count % 65536) i then none else some i

-- A new column starts a fresh read.
unfoldable pub sought_offset : ℕ → Option ℕ → ℕ → ℕ
sought_offset number none offset = 0
sought_offset number (some current) offset = if current == number then offset else 0

unfoldable pub seek : ℕ → Stmt → Stmt
seek number s = record s {
  getdata_col = some number;
  getdata_offset = sought_offset number s.getdata_col s.getdata_offset;
}

-- `convert_cell` writes the new offset into the statement.
unfoldable pub keep_offset : Option ℕ → Stmt → Stmt
keep_offset none s = s
keep_offset (some offset) s = record s { getdata_offset = offset }

unfoldable pub got : Stmt → Converted → Option (Stmt × Conversion)
got s none = none
got s (some conversion) =
    some (set_diag conversion.code (keep_offset conversion.offset s), conversion)

unfoldable pub refuse_data : Stmt → Conversion → Option (Stmt × Conversion)
refuse_data s conversion = some (set_diag conversion.code s, conversion)

unfoldable pub get_column :
    ℕ → CType → Buffer → Stmt → ResultSet → Option ℕ → Option (Stmt × Conversion)
get_column number c b s set none =
    refuse_data s (fail (codes "07009") (codes "Invalid column number"))
get_column number c b s set (some i) =
    let ready = seek number s in
    got ready (convert_found (cell_at set (s.next_row - 1) i) c b ready.getdata_offset)

unfoldable pub is_positioned : Stmt → ResultSet → Bool
is_positioned s set = ltb 0 s.next_row && leb s.next_row set.row_count

unfoldable pub get_data_from :
    ℕ → CType → Buffer → Stmt → Option ResultSet → Option (Stmt × Conversion)
get_data_from number c b s none =
    refuse_data s (fail (codes "24000") (codes "Not positioned on a row"))
get_data_from number c b s (some set) =
    if is_positioned s set
    then get_column number c b s set (column_index set number)
    else refuse_data s (fail (codes "24000") (codes "Not positioned on a row"))

unfoldable pub get_data : ℕ → CType → Buffer → Stmt → Option (Stmt × Conversion)
get_data number c b s = get_data_from number c b s (stmt_current_set s)
