-- ===== src/Response/Tests.antt =====
-- A result set of one row, decoded.
use frostlake_odbc.Base.{◌≡◌, ◌*◌, ◌+◌, refl, some, codes, arith, get_elem?, equal, ◌<◌}
use frostlake_odbc.Json.Value.{
  Json, string, array, object, nil, cons, end, field, get, at, find_field, child_count,
}
use frostlake_odbc.Response.Decode.{
  decode_set, decode_cell, decode_columns, decode_columns_from, decode_column, count_of,
}
use frostlake_odbc.Response.Shape.{decode_set-cell}

-- {"columns":[{"name":"A","dataType":"VARCHAR"}],"rows":[["x"]]}
abbrev answer : Json
answer = object (
    field (codes "columns")
      (array (
        cons
          (object (
            field (codes "name") (string (codes "A"))
              (field (codes "dataType") (string (codes "VARCHAR")) end)))
          nil))
      (field (codes "rows") (array (cons (array (cons (string (codes "x")) nil)) nil)) end))

one_row : 0 < (decode_set (some answer)).row_count
unfolding decode_set count_of get find_field child_count equal
one_row = omega arith

first_column :
    get_elem? (decode_set (some answer)).columns 0
    ≡ some (
        decode_column (
          some (
            object (
              field
                (codes "name")
                (string (codes "A"))
                (field (codes "dataType") (string (codes "VARCHAR")) end)))))
unfolding decode_set decode_columns decode_columns_from count_of get find_field child_count equal at
first_column = refl

decode_set-cell_example :
    get_elem? (decode_set (some answer)).cells (0 * (decode_set (some answer)).column_count + 0)
    ≡ some (
        decode_cell
          (decode_column (
            some (
              object (
                field
                  (codes "name")
                  (string (codes "A"))
                  (field (codes "dataType") (string (codes "VARCHAR")) end)))))
          (at (at (get (some answer) (codes "rows")) 0) 0))
decode_set-cell_example = decode_set-cell (some answer) 0 0 one_row first_column
