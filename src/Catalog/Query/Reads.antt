-- ===== src/Catalog/Query/Reads.antt =====
-- What the catalog functions of src/catalog.c read of an answer.
use frostlake_odbc.Base.{
  ℕ, ◌+◌, ◌*◌, ◌≡◌, ◌≢◌, ◌<◌, arith, true, Bool-cases, inl, inr, Option, none, some, List, [], ◌∷◌,
  length, get_elem?, get_elem?-some, Bytes, All, subst,
}
use frostlake_odbc.Response.Model.{Column, ResultSet}
use frostlake_odbc.Response.Types.{equal_ignoring_case}
use frostlake_odbc.Response.Shape.{index-bound}
use frostlake_odbc.Dbc.{Dbc}
use frostlake_odbc.Proto.Server.{Server}
use frostlake_odbc.Proto.Post.{World}
use frostlake_odbc.Proto.Execute.{answer, failure, Run, execute, execute_counted}
use frostlake_odbc.Proto.Execute.Full.{IsFull, FullAnswer, execute_as-full}
use frostlake_odbc.Catalog.Query.{
  QueryResult, refused, shown, first_set, show_response, show_run, run_catalog_query, index_from,
  column_index,
}

index_from-bound :
    (columns : List Column) (i : ℕ) (name : Bytes) {c : ℕ}
    → index_from i columns name ≡ some c
    → c < i + length columns
unfolding index_from
index_from-bound [] i name e = ground arith
index_from-bound (column ∷ columns) i name {c} e =
    elim (Bool-cases (equal_ignoring_case name column.name)) [
      | inl b ↦ ground (arith, b)
      | inr b ↦ omega (arith, index_from-bound columns (i + 1) name {c = c} (ground (arith, b)))
    ]

unfoldable pub FullShown : QueryResult → Type 0
FullShown (refused d) = Unit
FullShown (shown set) = IsFull set

first_set-FullShown : (sets : List ResultSet) → All IsFull sets → FullShown (first_set sets)
unfolding first_set FullShown
first_set-FullShown [] h = tt
first_set-FullShown (set ∷ sets) h = h.0

show_response-FullShown :
    (message : Option Bytes) (sets : List ResultSet)
    → All IsFull sets
    → FullShown (show_response message sets)
unfolding show_response
show_response-FullShown none sets h = first_set-FullShown sets h
show_response-FullShown (some message) sets h = unfold FullShown in tt

module _ (server : Server) where
  show_run-FullShown : (run : Run server) → FullAnswer run.0 → FullShown (show_run server run).0
  unfolding show_run FullAnswer
  show_run-FullShown (failure what, dbc, w) h = unfold FullShown in tt
  show_run-FullShown (answer r, dbc, w) h = show_response-FullShown r.error_message r.sets h

  query-FullShown :
      (sql : Bytes) (dbc : Dbc) (w : World server)
      → FullShown (run_catalog_query server sql dbc w).0
  unfolding run_catalog_query execute execute_counted
  query-FullShown sql dbc w = show_run-FullShown _ (execute_as-full server true true sql none dbc w)

  -- Whatever the server answers to a catalog query, the cell that `cell_text` reads for a row of the
  -- answer and a column that `column_index` has found lies within the answer's cells.
  pub query-reads :
      (sql : Bytes) (dbc : Dbc) (w : World server) (set : ResultSet) (name : Bytes) (row col : ℕ)
      → (run_catalog_query server sql dbc w).0 ≡ shown set
      → column_index set name ≡ some col
      → row < set.row_count
      → get_elem? set.cells (row * set.column_count + col) ≢ none
  query-reads sql dbc w set name row col e found l =
      get_elem?-some set.cells (row * set.column_count + col)
        (omega (arith, full.1, index-bound row col set.row_count set.column_count l in_columns))
    where
      full :
          (length set.columns ≡ set.column_count)
          × (length set.cells ≡ set.row_count * set.column_count)
      full = unfold FullShown IsFull in subst FullShown e (query-FullShown sql dbc w)

      in_columns : col < set.column_count
      in_columns = omega (
        arith,
        full.0,
        index_from-bound set.columns 0 name {c = col} (unfold column_index in found),
      )
