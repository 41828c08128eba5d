-- ===== src/Response/Shape.antt =====
-- The layout of the cells that `decode_rows` of src/proto.c fills.
use frostlake_odbc.Base.{
  ℕ, zero, suc, ◌+◌, ◌*◌, ◌≡◌, refl, Option, some, List, [], ◌∷◌, length, length-append, codes,
  arith, ◌<◌, ◌≤◌, get_elem?, ap, sym, ◌∙◌, get_elem?-append_left, get_elem?-append_right,
}
use frostlake_odbc.Json.Value.{Json, get, at}
use frostlake_odbc.Response.Model.{Column, ResultSet}
use frostlake_odbc.Response.Decode.{
  count_of, decode_columns_from, decode_columns, decode_cell, decode_row, decode_rows_from,
  decode_set,
}

-- Every column that is counted is described, and the rows lie within the array of the cells.
unfoldable pub Covers : ResultSet → Type 0
Covers set =
    (length set.columns ≡ set.column_count) × (set.row_count * set.column_count ≤ length set.cells)

pub index-bound :
    (row i rows columns : ℕ) → row < rows → i < columns → row * columns + i < rows * columns
index-bound row i rows columns l k = grind arith

length-decode_columns_from :
    (columns : Option Json) (left i : ℕ) → length (decode_columns_from columns left i) ≡ left
unfolding decode_columns_from
length-decode_columns_from columns zero i = refl
length-decode_columns_from columns (suc left) i =
    omega (arith, length-decode_columns_from columns left (i + 1))

length-decode_row :
    (columns : List Column) (row : Option Json) (i : ℕ)
    → length (decode_row columns row i) ≡ length columns
unfolding decode_row
length-decode_row [] row i = refl
length-decode_row (col ∷ columns) row i = omega (arith, length-decode_row columns row (i + 1))

length-decode_rows_from :
    (columns : List Column) (rows : Option Json) (left r : ℕ)
    → length (decode_rows_from columns rows left r) ≡ left * length columns
unfolding decode_rows_from
length-decode_rows_from columns rows zero r = omega arith
length-decode_rows_from columns rows (suc left) r = grind (
  arith,
  length-append (decode_row columns (at rows r) 0) (decode_rows_from columns rows left (r + 1)),
  length-decode_row columns (at rows r) 0,
  length-decode_rows_from columns rows left (r + 1),
)

some-inj : {a b : Column} → some a ≡ some b → a ≡ b
some-inj h = ground arith

get_elem?-row :
    (columns : List Column) (row : Option Json) (i c : ℕ) {col : Column}
    → get_elem? columns c ≡ some col
    → get_elem? (decode_row columns row i) c ≡ some (decode_cell col (at row (i + c)))
unfolding decode_row
get_elem?-row [] row i c h = ground arith
get_elem?-row (x ∷ columns) row i zero {col} h =
    ap (λ y. some (decode_cell y (at row i))) (some-inj h)
    ∙ ap (λ n. some (decode_cell col (at row n))) (omega arith)
get_elem?-row (x ∷ columns) row i (suc c) {col} h =
    get_elem?-row columns row (i + 1) c h
    ∙ ap (λ n. some (decode_cell col (at row n))) (omega arith)

get_elem?-rows :
    (columns : List Column) (rows : Option Json) (left first r c : ℕ) {col : Column}
    → r < left
    → get_elem? columns c ≡ some col
    → get_elem? (decode_rows_from columns rows left first) (r * length columns + c)
      ≡ some (decode_cell col (at (at rows (first + r)) c))
unfolding decode_rows_from
get_elem?-rows columns rows zero first r c l h = ground arith
get_elem?-rows columns rows (suc left) first zero c {col} l h =
    ap (get_elem? (decode_rows_from columns rows (suc left) first)) {x = 0 * length columns + c}
      {y = c} (omega arith)
    ∙ get_elem?-append_left (decode_row columns (at rows first) 0)
        (decode_rows_from columns rows left (first + 1)) c
        (get_elem?-row columns (at rows first) 0 c h
          ∙ ap (λ n. some (decode_cell col (at (at rows first) n))) (omega arith))
    ∙ ap (λ n. some (decode_cell col (at (at rows n) c))) {y = first + 0} (omega arith)
get_elem?-rows columns rows (suc left) first (suc r) c {col} l h =
    ap (get_elem? _) offset
    ∙ get_elem?-append_right (decode_row columns (at rows first) 0) _ (r * length columns + c)
    ∙ get_elem?-rows columns rows left (first + 1) r c (omega arith) h
    ∙ ap (λ n. some (decode_cell col (at (at rows n) c))) (omega arith)
  where
    offset :
        suc r * length columns + c
        ≡ length (decode_row columns (at rows first) 0) + (r * length columns + c)
    offset = grind (arith, length-decode_row columns (at rows first) 0)

-- The cells of a decoded result set fill row_count rows of column_count cells, and each column
-- that is counted is described, whatever the answer's JSON holds.
pub decode_set-full :
    (j : Option Json)
    → (length (decode_set j).columns ≡ (decode_set j).column_count)
      × (length (decode_set j).cells ≡ (decode_set j).row_count * (decode_set j).column_count)
unfolding decode_set decode_columns
decode_set-full j = (
  length-decode_columns_from columns (count_of columns) 0,
  grind (
    arith,
    length-decode_rows_from (decode_columns columns) (get j (codes "rows"))
        (count_of (get j (codes "rows"))) 0,
    length-decode_columns_from columns (count_of columns) 0,
  ),
)
  where
    columns : Option Json
    columns = get j (codes "columns")

-- The cell at row * column_count + col, which is where every reader of a result set looks, is the
-- decoding of the answer's value in that row and column, at that column's type.
pub decode_set-cell :
    (j : Option Json) (r c : ℕ) {col : Column}
    → r < (decode_set j).row_count
    → get_elem? (decode_set j).columns c ≡ some col
    → get_elem? (decode_set j).cells (r * (decode_set j).column_count + c)
      ≡ some (decode_cell col (at (at (get j (codes "rows")) r) c))
unfolding decode_set
decode_set-cell j r c {col} l h =
    ap (λ n. get_elem? (decode_set j).cells (r * n + c)) (sym (decode_set-full j).0)
    ∙ get_elem?-rows _ (get j (codes "rows")) _ 0 r c l h
    ∙ ap (λ n. some (decode_cell col (at (at (get j (codes "rows")) n) c))) (omega arith)
