-- ===== src/Statement/Run/Reach.antt =====
-- What holds of a statement after any sequence of calls, from its allocation on, over the arrays
-- that src/execute.c and src/results.c read.
use frostlake_odbc.Base.{
  ℕ, zero, suc, ◌+◌, ◌*◌, ◌≡◌, ◌≢◌, ◌<◌, refl, arith, false, Option, none, some, List, leb,
  get_elem?, get_elem?-some, subst,
}
use frostlake_odbc.Dbc.{Dbc}
use frostlake_odbc.Response.Model.{Cell, Column, ResultSet}
use frostlake_odbc.Proto.Server.{Server}
use frostlake_odbc.Proto.Post.{World}
use frostlake_odbc.Response.Shape.{Covers, index-bound}
use frostlake_odbc.Statement.State.{Stmt, alloc_stmt, stmt_current_set, set_of, set_of_response}
use frostlake_odbc.Statement.Execute.{Handle}
use frostlake_odbc.Statement.Cursor.{both_found, cell_at, fetch_limit, column_index}
use frostlake_odbc.Statement.Run.{Call, run}
use frostlake_odbc.Statement.Run.Sound.{sets_of, Covered, InSet, IsSound}
use frostlake_odbc.Statement.Run.Steps.{SoundHandle, run-SoundHandle}

-- The accesses of a row and a column within the counts.
pub cell_at-found :
    (set : ResultSet) (row i : ℕ)
    → Covers set
    → row < set.row_count
    → i < set.column_count
    → cell_at set row i ≢ none
unfolding cell_at both_found Covers
cell_at-found set row i full l k =
    go (get_elem? set.columns i) (get_elem? set.cells (row * set.column_count + i))
      (get_elem?-some set.columns i (omega (arith, full.0)))
      (get_elem?-some set.cells (row * set.column_count + i)
        (omega (arith, full.1, index-bound row i set.row_count set.column_count l k)))
  where
    go :
        (column : Option Column) (cell : Option Cell)
        → column ≢ none
        → cell ≢ none
        → both_found column cell ≢ none
    go none cell c d = λ e. c refl
    go (some x) none c d = λ e. d refl
    go (some x) (some y) c d = λ e. ground arith

-- A statement that was just allocated on a connection.
unfoldable pub fresh : (server : Server) → Dbc → World server → Handle server
fresh server dbc w = record { stmt = alloc_stmt; dbc = dbc; world = w }

-- After any sequence of calls on a statement that was just allocated, none of which has read out
-- of bounds, and whatever the server answers, every result set that the statement holds has
-- column_count described columns and row_count times column_count cells, or at least as many when
-- it is one that a catalog call has put together, and the cursor stands in front of the current
-- set, on one of its rows, or one behind the last.
pub run-IsSound :
    (server : Server) (dbc : Dbc) (w : World server) (calls : List Call) {h : Handle server}
    → run server (fresh server dbc w) calls ≡ some h
    → IsSound h.stmt
run-IsSound server dbc w calls {h} e =
    unfold SoundHandle in
    subst (SoundHandle server) e (
      run-SoundHandle server calls (fresh server dbc w) (
        unfold fresh IsSound Covered alloc_stmt sets_of stmt_current_set set_of set_of_response
          InSet in
        (tt, tt, tt)))

pub sound-current :
    (s : Stmt) {set : ResultSet} → stmt_current_set s ≡ some set → IsSound s → Covers set
unfolding IsSound InSet
sound-current s e k = (subst (InSet s.next_row) e k.2).0

pub in_columns :
    (set : ResultSet) (number : ℕ) {i : ℕ} → column_index set number ≡ some i → i < set.column_count
unfolding column_index
in_columns set zero e = ground arith
in_columns set (suc n) {i} e = ground arith

pub before_limit :
    (s : Stmt) (set : ResultSet)
    → leb (fetch_limit set s.max_rows) s.next_row ≡ false
    → s.next_row < set.row_count
unfolding fetch_limit
before_limit s set e = ground arith
