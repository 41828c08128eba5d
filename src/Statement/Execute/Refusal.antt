-- ===== src/Statement/Execute/Refusal.antt =====
-- An execution of src/execute.c on a session that the engine no longer holds.
use frostlake_odbc.Base.{◌≡◌, refl, true, false, ◌||◌, none, ◌∷◌, Bytes, codes}
use frostlake_odbc.Base.Int.{negsuc}
use frostlake_odbc.Dbc.{Dbc}
use frostlake_odbc.Results.Convert.Model.{failed, diag_record}
use frostlake_odbc.Proto.Request.{build_request}
use frostlake_odbc.Proto.Server.{Server}
use frostlake_odbc.Proto.Lifecycle.{forget_session}
use frostlake_odbc.Proto.Post.{gone, lost, World, post}
use frostlake_odbc.Proto.Execute.{failure, execute_counted}
use frostlake_odbc.Proto.Execute.Recovery.{what_is_lost, execute_counted-lost}
use frostlake_odbc.Statement.State.{
  clear_results, stmt_current_set, set_of, set_of_response, set_diag, error,
}
use frostlake_odbc.Statement.Execute.{Handle, lost_text, failure_text, report, take_run, run_sql}

-- With no scope left to put on, when the engine refuses the session of a statement and a
-- transaction was open on it or its context had been moved, an execution answers SQL_ERROR with
-- 08S01 and the text of what was lost; the statement has no result set and the row count -1, the
-- connection has forgotten the session, and one request was sent.
pub run_sql-lost :
    (server : Server) (h : Handle server) (sql : Bytes) {dbc' : Dbc} {w' : World server}
    → h.dbc.scope_pending ≡ false
    → (h.dbc.in_transaction || h.dbc.session_dirty) ≡ true
    → post server h.dbc sql h.stmt.multi_statement_count h.world ≡ (gone, dbc', w')
    → ((run_sql server h sql).1
        ≡ failed (diag_record (codes "08S01") (lost_text (what_is_lost server h.dbc))))
      × (stmt_current_set (run_sql server h sql).0.stmt ≡ none)
      × ((run_sql server h sql).0.stmt.row_count ≡ negsuc 0)
      × ((run_sql server h sql).0.dbc ≡ forget_session h.dbc)
      × ((run_sql server h sql).0.world.posted
          ≡ build_request h.dbc sql h.stmt.multi_statement_count ∷ h.world.posted)
unfolding run_sql
run_sql-lost server h sql {w'} e held g = rw ran (
    unfold take_run report error failure_text set_diag clear_results stmt_current_set set_of
      set_of_response in
    (refl, refl, refl, refl, sent))
  where
    ran :
        execute_counted server sql h.stmt.multi_statement_count h.dbc h.world
        ≡ (failure (lost (what_is_lost server h.dbc)), forget_session h.dbc, w')
    ran = (execute_counted-lost server sql _ h.dbc h.world e held g).0

    sent : w'.posted ≡ build_request h.dbc sql h.stmt.multi_statement_count ∷ h.world.posted
    sent = (execute_counted-lost server sql _ h.dbc h.world e held g).1
