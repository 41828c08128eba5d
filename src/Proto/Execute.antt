-- ===== src/Proto/Execute.antt =====
-- `fl_proto_execute_as` of src/proto.c, and the two calls over it.
pub mod Keeps
pub mod Frame
pub mod Recovery
pub mod Bounds
pub mod Full
use frostlake_odbc.Base.{
  ℕ, Bool, true, false, Option, none, some, [], ◌++◌, if◌then◌else◌, Bytes, codes,
}
use frostlake_odbc.Dbc.{Dbc}
use frostlake_odbc.Response.Model.{Response}
use frostlake_odbc.Session.Note.{session_note}
use frostlake_odbc.Proto.Server.{Server}
use frostlake_odbc.Proto.Lifecycle.{Lost, again, forget_session, lose_session}
use frostlake_odbc.Proto.Post.{Failure, lost, Posted, responded, gone, broken, World, post}
use frostlake_odbc.Proto.Scope.{applied, refused, scope_lost, ScopeRun, apply_scope}

-- A response, which may hold an error message, or NULL with *transport_error set.
pub data Executed : Type 0 where
  answer : Response → Executed
  failure : Failure → Executed

-- A response that carries only an error message.
unfoldable pub refused_response : Bytes → Bytes → Response
refused_response prefix message = record {
  sets = [];
  session_id = none;
  error_message = some (prefix ++ message);
}

unfoldable pub note_success : Bool → Option Bytes → Bytes → Dbc → Dbc
note_success tracked none sql dbc = if tracked then session_note dbc sql else dbc
note_success tracked (some message) sql dbc = dbc

module _ (server : Server) where
  abbrev pub Run : Type 0
  Run = Executed × Dbc × World server

  -- `scope_failed`, or what follows a scope that went on.
  unfoldable pub after_scope : (Dbc → World server → Run) → ScopeRun server → Run
  after_scope next (applied, dbc, w) = next dbc w
  after_scope next (refused message, dbc, w) = (
    answer (refused_response (codes "the connection's scope could not be applied: ") message),
    dbc,
    w,
  )
  after_scope next (scope_lost what, dbc, w) = (failure what, dbc, w)

  unfoldable pub after_post :
      (Dbc → World server → Run) → Bool → Bytes → Posted × Dbc × World server → Run
  after_post on_gone tracked sql (gone, dbc, w) = on_gone dbc w
  after_post on_gone tracked sql (broken what, dbc, w) = (failure what, dbc, w)
  after_post on_gone tracked sql (responded r, dbc, w) =
      (answer r, note_success tracked r.error_message sql dbc, w)

  -- A second refusal, or the first of a call that does not recover.
  unfoldable pub lost_again : Dbc → World server → Run
  lost_again dbc w = (failure (lost again), forget_session dbc, w)

  unfoldable pub resend : Bytes → Option ℕ → Bool → Dbc × Option Lost → World server → Run
  resend sql count tracked (dbc, some what) w = (failure (lost what), dbc, w)
  resend sql count tracked (dbc, none) w =
      after_scope (λ dbc' w'. after_post lost_again tracked sql (post server dbc' sql count w'))
        (apply_scope server dbc w)

  unfoldable pub recover : Bool → Bytes → Option ℕ → Bool → Dbc → World server → Run
  recover false sql count tracked dbc w = lost_again dbc w
  recover true sql count tracked dbc w = resend sql count tracked (lose_session dbc) w

  unfoldable pub send_statement : Bool → Bool → Bytes → Option ℕ → Dbc → World server → Run
  send_statement tracked recovers sql count dbc w =
      after_post (recover recovers sql count tracked) tracked sql (post server dbc sql count w)

  -- `tracked` and `recovers` are the flags FL_EXEC_TRACKED and FL_EXEC_RECOVER.
  unfoldable pub execute_as : Bool → Bool → Bytes → Option ℕ → Dbc → World server → Run
  execute_as tracked recovers sql count dbc w =
      if dbc.scope_pending
      then after_scope (send_statement tracked recovers sql count) (apply_scope server dbc w)
      else send_statement tracked recovers sql count dbc w

  unfoldable pub execute_counted : Bytes → Option ℕ → Dbc → World server → Run
  execute_counted = execute_as true true

  unfoldable pub execute : Bytes → Dbc → World server → Run
  execute sql = execute_counted sql none
