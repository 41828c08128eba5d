-- ===== src/Statement/Run/Sound.antt =====
-- The invariant of a statement under the calls of src/execute.c, src/handles.c and src/results.c.
use frostlake_odbc.Base.{
  ℕ, zero, suc, ◌+◌, ◌≡◌, ◌≤◌, arith, true, Option, none, some, List, [], ◌∷◌, Bytes, c_string, All,
  get_elem?,
}
use frostlake_odbc.Response.Shape.{Covers}
use frostlake_odbc.Catalog.Synth.{install_synth}
use frostlake_odbc.Results.Convert.Model.{Return}
use frostlake_odbc.Dbc.{Dbc}
use frostlake_odbc.Response.Model.{ResultSet, Response}
use frostlake_odbc.Bind.Param.{Rendered, rendered, refused}
use frostlake_odbc.Bind.Substitute.{final_sql}
use frostlake_odbc.Proto.Server.{Server}
use frostlake_odbc.Proto.Post.{World}
use frostlake_odbc.Proto.Execute.{answer, failure, Run, execute_counted}
use frostlake_odbc.Proto.Execute.Full.{IsFull, FullAnswer, execute_as-full}
use frostlake_odbc.Statement.State.{
  Stmt, clear_results, set_of, set_of_response, stmt_current_set, set_diag,
}
use frostlake_odbc.Statement.Execute.{
  Handle, report, store_response, take_response, take_run, run_sql, run_rendered, execute_prepared,
}

unfoldable pub sets_of : Option Response → List ResultSet
sets_of none = []
sets_of (some r) = r.sets

-- The cursor stands in front of the set, on a row, or one behind the last.
unfoldable pub InSet : ℕ → Option ResultSet → Type 0
InSet n none = Unit
InSet n (some set) = Covers set × (n ≤ set.row_count + 1)

-- The array of a set that the driver has put together may be longer than its rows.
unfoldable pub Covered : Option ResultSet → Type 0
Covered none = Unit
Covered (some set) = Covers set

full-Covers : (set : ResultSet) → IsFull set → Covers set
unfolding IsFull Covers
full-Covers set h = (h.0, omega (arith, h.1))

-- What is kept: every set that a statement holds is full, the one that the driver has put together
-- covers its rows, and the cursor is in the current one.
unfoldable pub IsSound : Stmt → Type 0
IsSound s =
    Covered s.synth × All IsFull (sets_of s.response) × InSet s.next_row (stmt_current_set s)

pub get_elem?-All :
    (sets : List ResultSet) (i n : ℕ) → All IsFull sets → n ≤ 0 → InSet n (get_elem? sets i)
unfolding InSet
get_elem?-All [] i n h z = tt
get_elem?-All (x ∷ sets) zero n h z = (full-Covers x h.0, omega arith)
get_elem?-All (x ∷ sets) (suc i) n h z = get_elem?-All sets i n h.1 z

-- At the start of any set of a response.
pub start-InSet :
    (r : Option Response) (i : ℕ) → All IsFull (sets_of r) → InSet 0 (set_of_response r i)
unfolding sets_of set_of_response InSet
start-InSet none i h = tt
start-InSet (some r) i h = get_elem?-All r.sets i 0 h (omega arith)

pub cleared-IsSound : (s : Stmt) → IsSound (clear_results s)
unfolding IsSound Covered clear_results sets_of stmt_current_set set_of set_of_response InSet
cleared-IsSound s = (tt, tt, tt)

-- A set of the driver's own takes the place of the results.
pub install_synth-IsSound :
    (set : ResultSet) (s : Stmt) → Covers set → IsSound (install_synth set s)
unfolding install_synth IsSound Covered clear_results sets_of stmt_current_set set_of InSet
install_synth-IsSound set s h = (h, tt, (h, omega arith))

pub set_diag-IsSound : (code : Return) (s : Stmt) → IsSound s → IsSound (set_diag code s)
unfolding set_diag IsSound stmt_current_set
set_diag-IsSound code s h = h

pub store_response-IsSound :
    (r : Response) (s : Stmt) → s.synth ≡ none → All IsFull r.sets → IsSound (store_response r s)
unfolding IsSound Covered store_response sets_of stmt_current_set set_of
store_response-IsSound r s e h = (rw e tt, h, rw e (start-InSet (some r) 0 (unfold sets_of in h)))

module _ (server : Server) where
  take_response-IsSound :
      (sql : Bytes) (s : Stmt) (r : Response) (message : Option Bytes) (dbc : Dbc)
      (w : World server)
      → All IsFull r.sets
      → IsSound (take_response server sql (clear_results s) r message dbc w).0.stmt
  unfolding take_response report set_diag IsSound Covered clear_results sets_of stmt_current_set
      set_of set_of_response InSet store_response
  take_response-IsSound sql s r (some message) dbc w h = (tt, tt, tt)
  take_response-IsSound sql s r none dbc w h = (tt, h, start-InSet (some r) 0 h)

  take_run-IsSound :
      (sql : Bytes) (s : Stmt) (run : Run server)
      → FullAnswer run.0
      → IsSound (take_run server sql (clear_results s) run).0.stmt
  unfolding take_run report set_diag IsSound Covered FullAnswer clear_results sets_of
      stmt_current_set set_of set_of_response InSet
  take_run-IsSound sql s (failure what, dbc, w) h = (tt, tt, tt)
  take_run-IsSound sql s (answer r, dbc, w) h =
      take_response-IsSound sql s r r.error_message dbc w h

  pub run_sql-IsSound : (h : Handle server) (sql : Bytes) → IsSound (run_sql server h sql).0.stmt
  unfolding run_sql execute_counted
  run_sql-IsSound h sql =
      take_run-IsSound sql h.stmt _ (execute_as-full server true true sql _ h.dbc h.world)

  pub run_rendered-IsSound :
      (h : Handle server) (r : Rendered) → IsSound h.stmt → IsSound (run_rendered server h r).0.stmt
  unfolding run_rendered report set_diag IsSound stmt_current_set
  run_rendered-IsSound h (rendered sql) k = run_sql-IsSound h (c_string sql)
  run_rendered-IsSound h (refused d) k = k

  pub execute_prepared-IsSound :
      (h : Handle server) (sql : Option Bytes)
      → IsSound h.stmt
      → IsSound (execute_prepared server h sql).0.stmt
  unfolding execute_prepared report set_diag IsSound stmt_current_set
  execute_prepared-IsSound h none k = k
  execute_prepared-IsSound h (some sql) k = run_rendered-IsSound h (final_sql h.stmt.params sql) k
