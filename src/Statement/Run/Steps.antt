-- ===== src/Statement/Run/Steps.antt =====
-- The invariant of a statement through one call and through any sequence of calls.
use frostlake_odbc.Base.{Option, none, some, List, [], ◌∷◌, subst, sym, inl, inr}
use frostlake_odbc.Proto.Server.{Server}
use frostlake_odbc.Statement.State.{Stmt}
use frostlake_odbc.Results.Convert.Model.{Return, success, failed}
use frostlake_odbc.Catalog.Outcome.{IsRefusal, IsListing, HasOutcome, catalog_call-HasOutcome}
use frostlake_odbc.Statement.Execute.{Called, Handle, exec_direct, sql_execute, copy_sql}
use frostlake_odbc.Bind.Substitute.{final_sql}
use frostlake_odbc.Statement.Run.{
  Call, to_exec_direct, to_prepare, to_execute, look, to_fetch, to_more_results, to_close_cursor,
  to_cancel, to_bind_parameter, to_bind_col, to_get_data, to_fetch_scroll, to_describe_col,
  to_col_attribute, to_free_stmt, to_set_stmt_attr, to_catalog, local, put_stmt, after_call, step,
  then_run, run,
}
use frostlake_odbc.Statement.Run.Sound.{
  IsSound, install_synth-IsSound, set_diag-IsSound, run_rendered-IsSound, execute_prepared-IsSound,
}
use frostlake_odbc.Statement.Run.Keeps.{SoundAfter}
use frostlake_odbc.Statement.Run.Replies.{local-SoundAfter}

module _ (server : Server) where
  unfoldable pub SoundHandle : Option (Handle server) → Type 0
  SoundHandle none = Unit
  SoundHandle (some h) = IsSound h.stmt

  put_stmt-SoundHandle :
      (h : Handle server) (o : Option Stmt) → SoundAfter o → SoundHandle (put_stmt server h o)
  unfolding put_stmt SoundAfter SoundHandle
  put_stmt-SoundHandle h none k = tt
  put_stmt-SoundHandle h (some s) k = k

  local_step :
      (call : Call) (h : Handle server)
      → IsSound h.stmt
      → SoundHandle (put_stmt server h (local call h.stmt))
  local_step call h k = put_stmt-SoundHandle h _ (local-SoundAfter call h.stmt k)

  refusal-IsSound :
      (h next : Handle server) (code : Return)
      → IsRefusal server h (next, code)
      → IsSound h.stmt
      → IsSound next.stmt
  unfolding IsRefusal
  refusal-IsSound h next code (d, c, e) k =
      subst IsSound (sym e) (set_diag-IsSound (failed d) h.stmt k)

  listing-IsSound :
      (h next : Handle server) (code : Return) → IsListing server h (next, code) → IsSound next.stmt
  unfolding IsListing
  listing-IsSound h next code (set, covers, c, e) =
      subst IsSound (sym e) (set_diag-IsSound success _ (install_synth-IsSound set h.stmt covers))

  after_call-SoundHandle :
      (h : Handle server) (o : Option (Called server))
      → HasOutcome server h o
      → IsSound h.stmt
      → SoundHandle (after_call server o)
  unfolding after_call SoundHandle HasOutcome
  after_call-SoundHandle h none w k = tt
  after_call-SoundHandle h (some (next, code)) (inl r) k = refusal-IsSound h next code r k
  after_call-SoundHandle h (some (next, code)) (inr l) k = listing-IsSound h next code l

  step-SoundHandle :
      (call : Call) (h : Handle server) → IsSound h.stmt → SoundHandle (step server h call)
  unfolding step
  step-SoundHandle (to_exec_direct n text) h k =
      unfold SoundHandle exec_direct in
      run_rendered-IsSound server h (final_sql h.stmt.params (copy_sql n text)) k
  step-SoundHandle to_execute h k =
      unfold SoundHandle sql_execute in execute_prepared-IsSound server h h.stmt.prepared_sql k
  step-SoundHandle (to_prepare n text) h k = local_step (to_prepare n text) h k
  step-SoundHandle look h k = local_step look h k
  step-SoundHandle to_fetch h k = local_step to_fetch h k
  step-SoundHandle to_more_results h k = local_step to_more_results h k
  step-SoundHandle to_close_cursor h k = local_step to_close_cursor h k
  step-SoundHandle to_cancel h k = local_step to_cancel h k
  step-SoundHandle (to_bind_parameter input n p) h k = local_step (to_bind_parameter input n p) h k
  step-SoundHandle (to_bind_col n c b) h k = local_step (to_bind_col n c b) h k
  step-SoundHandle (to_get_data n c b) h k = local_step (to_get_data n c b) h k
  step-SoundHandle (to_fetch_scroll next) h k = local_step (to_fetch_scroll next) h k
  step-SoundHandle (to_describe_col n present size) h k =
      local_step (to_describe_col n present size) h k
  step-SoundHandle (to_col_attribute n field present size) h k =
      local_step (to_col_attribute n field present size) h k
  step-SoundHandle (to_free_stmt option) h k = local_step (to_free_stmt option) h k
  step-SoundHandle (to_set_stmt_attr attr) h k = local_step (to_set_stmt_attr attr) h k
  step-SoundHandle (to_catalog call) h k =
      after_call-SoundHandle h _ (catalog_call-HasOutcome server h call) k

  then_run-SoundHandle :
      (next : Handle server → Option (Handle server)) (o : Option (Handle server))
      → ((h : Handle server) → IsSound h.stmt → SoundHandle (next h))
      → SoundHandle o
      → SoundHandle (then_run server next o)
  unfolding then_run SoundHandle
  then_run-SoundHandle next none g k = tt
  then_run-SoundHandle next (some h) g k = g h k

  pub run-SoundHandle :
      (calls : List Call) (h : Handle server) → IsSound h.stmt → SoundHandle (run server h calls)
  unfolding run
  run-SoundHandle [] h k = unfold SoundHandle in k
  run-SoundHandle (call ∷ calls) h k =
      then_run-SoundHandle (λ h'. run server h' calls) (step server h call)
        (λ h' k'. run-SoundHandle calls h' k') (step-SoundHandle call h k)
