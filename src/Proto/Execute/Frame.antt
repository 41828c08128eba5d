-- ===== src/Proto/Execute/Frame.antt =====
-- What an execution of src/proto.c leaves alone on the connection.
use frostlake_odbc.Base.{ℕ, Bool, true, false, ◌≡◌, refl, Option, Bytes, arith}
use frostlake_odbc.Base.Int.{ℤ}
use frostlake_odbc.Dbc.{Dbc}
use frostlake_odbc.Session.Note.Keeps.{session_note-keeps, words-keep}
use frostlake_odbc.Proto.Server.{Server}
use frostlake_odbc.Proto.Lifecycle.{reset_session_state, forget_session}
use frostlake_odbc.Proto.Post.{World}
use frostlake_odbc.Proto.Post.Keeps.{absorbed-keeps}
use frostlake_odbc.Proto.Execute.{execute_as}
use frostlake_odbc.Proto.Execute.Keeps.{Kept, execute_as-keeps}

-- The part of a connection that its login fixed: the address, the options, the scope and the
-- commit mode.
pub record Login : Type 0 where
  pub connected : Bool
  pub host : Option Bytes
  pub port : ℕ
  pub dsn : Option Bytes
  pub autocommit : Bool
  pub login_timeout : ℤ
  pub request_timeout : ℕ
  pub scope_database : Option Bytes
  pub scope_schema : Option Bytes

abbrev pub login : Dbc → Login
login dbc = record {
  connected = dbc.connected;
  host = dbc.host;
  port = dbc.port;
  dsn = dbc.dsn;
  autocommit = dbc.autocommit;
  login_timeout = dbc.login_timeout;
  request_timeout = dbc.request_timeout;
  scope_database = dbc.scope_database;
  scope_schema = dbc.scope_schema;
}

login-Kept : (l : Login) (tracked : Bool) → Kept tracked (λ dbc. login dbc ≡ l)
unfolding forget_session reset_session_state
login-Kept l tracked = record {
  absorbed = absorbed-keeps _ (λ dbc name h. h) (λ dbc s h. h) (λ dbc h. h);
  forgotten = λ dbc h. h;
  scoped = λ dbc h. h;
  noted = λ e dbc sql h.
      session_note-keeps (λ d. login d ≡ l) (words-keep _ (λ dbc dirty in_txn h. h)) dbc sql h;
}

-- An execution, with any flags and whatever the server answers, leaves the connection's login as
-- it was: the address, the timeouts, the scope that recovery restores and the commit mode.
pub login-execute_as :
    (server : Server) (tracked recovers : Bool) (sql : Bytes) (count : Option ℕ) (dbc : Dbc)
    (w : World server)
    → login (execute_as server tracked recovers sql count dbc w).1 ≡ login dbc
login-execute_as server tracked recovers sql count dbc w =
    execute_as-keeps server tracked _ (login-Kept (login dbc) tracked) recovers sql count dbc w refl

-- No flag is raised that was down.
pub record NoNewState (before dbc : Dbc) : Type 0 where
  pub dirty : dbc.session_dirty ≡ true → before.session_dirty ≡ true
  pub in_txn : dbc.in_transaction ≡ true → before.in_transaction ≡ true

untracked-Kept : (before : Dbc) → Kept false (NoNewState before)
unfolding forget_session reset_session_state
untracked-Kept before = record {
  absorbed =
      absorbed-keeps _ (λ dbc name h. record { dirty = h.dirty; in_txn = h.in_txn })
        (λ dbc s h. record { dirty = h.dirty; in_txn = h.in_txn })
        (λ dbc h. record { dirty = λ k. ground arith; in_txn = λ k. ground arith });
  forgotten = λ dbc h. record { dirty = λ k. ground arith; in_txn = λ k. ground arith };
  scoped = λ dbc h. record { dirty = h.dirty; in_txn = h.in_txn };
  noted = λ e dbc sql h. ground arith;
}

-- An execution without FL_EXEC_TRACKED, the kind that the driver makes for itself, never raises
-- the flags by which a lost session is reported instead of replaced: a flag that is up behind it
-- was up before it.
pub untracked-NoNewState :
    (server : Server) (recovers : Bool) (sql : Bytes) (count : Option ℕ) (dbc : Dbc)
    (w : World server)
    → NoNewState dbc (execute_as server false recovers sql count dbc w).1
untracked-NoNewState server recovers sql count dbc w =
    execute_as-keeps server false _ (untracked-Kept dbc) recovers sql count dbc w
      (record { dirty = λ h. h; in_txn = λ h. h })
