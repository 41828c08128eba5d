-- ===== src/Connect/Attr.antt =====
-- SQLEndTran, SQLSetConnectAttr and SQLGetConnectAttr of src/connect.c.
use frostlake_odbc.Base.{
  ◌-◌, ℕ, Bool, true, false, ◌&&◌, not, Option, none, some, ◌++◌, if◌then◌else◌, Bytes, codes,
  c_string, take,
}
use frostlake_odbc.Base.Int.{ℤ, pos, negsuc, wrap_int}
use frostlake_odbc.Response.Decode.{half_int}
use frostlake_odbc.Dbc.{Dbc}
use frostlake_odbc.Response.Decode.{or_empty}
use frostlake_odbc.Results.Convert.Model.{Return, success}
use frostlake_odbc.Proto.Server.{Server}
use frostlake_odbc.Proto.Post.{World}
use frostlake_odbc.Proto.Execute.{answer, failure, Run, execute_as, execute}
use frostlake_odbc.Statement.State.{error}
use frostlake_odbc.Statement.Execute.{failure_text}
use frostlake_odbc.Statement.Describe.{Copied, copy_string}

unfoldable pub same : Bool → Bool → Bool
same true b = b
same false b = not b

unfoldable pub switch_text : Bool → Bytes
switch_text true = codes "TRUE"
switch_text false = codes "FALSE"

-- The attributes that a call sets; `ignored` is any other.
pub data SetConnect : Type 0 where
  autocommit : Bool → SetConnect
  login_timeout : ℕ → SetConnect
  current_catalog : Bytes → SetConnect
  ignored : SetConnect

unfoldable pub with_autocommit : Bool → Dbc → Dbc
with_autocommit wanted dbc = record dbc { autocommit = wanted }

unfoldable pub with_catalog : Bytes → Dbc → Dbc
with_catalog name dbc = record dbc { database = some name }

module _ (server : Server) where
  abbrev pub Finished : Type 0
  Finished = Return × Dbc × World server

  unfoldable pub judged : Bytes → (Dbc → Dbc) → Option Bytes → Dbc → World server → Finished
  judged refused done (some message) dbc w = (error refused message, dbc, w)
  judged refused done none dbc w = (success, done dbc, w)

  -- The two codes are for no answer and for a refusal.
  unfoldable pub after_run : Bytes → Bytes → (Dbc → Dbc) → Run server → Finished
  after_run unanswered refused done (failure what, dbc, w) =
      (error unanswered (failure_text what), dbc, w)
  after_run unanswered refused done (answer r, dbc, w) = judged refused done r.error_message dbc w

  -- `commit` is the completion SQL_COMMIT.
  unfoldable pub end_tran : Bool → Dbc → World server → Finished
  end_tran commit dbc w =
      if dbc.connected
      then after_run (codes "08S01") (codes "25000") (λ d. d)
          (execute server (if commit then codes "COMMIT" else codes "ROLLBACK") dbc w)
      else (error (codes "08003") (codes "Connection not open"), dbc, w)

  unfoldable pub set_autocommit : Bool → Dbc → World server → Finished
  set_autocommit wanted dbc w =
      if dbc.connected && not (same wanted dbc.autocommit)
      then after_run (codes "08S01") (codes "HY000") (with_autocommit wanted) (
          execute_as server false true
            (codes "ALTER SESSION SET AUTOCOMMIT = " ++ switch_text wanted) none dbc w)
      else (success, with_autocommit wanted dbc, w)

  -- The statement goes through a buffer of 600 bytes.
  unfoldable pub set_catalog : Bytes → Dbc → World server → Finished
  set_catalog name dbc w =
      if dbc.connected
      then after_run (codes "HY000") (codes "HY000") (with_catalog name)
          (execute server (take 599 (codes "USE DATABASE " ++ name)) dbc w)
      else (success, with_catalog name dbc, w)

  unfoldable pub set_connect_attr : SetConnect → Dbc → World server → Finished
  set_connect_attr (autocommit wanted) dbc w = set_autocommit wanted dbc w
  set_connect_attr (login_timeout n) dbc w =
      (success, record dbc { login_timeout = wrap_int half_int (pos n) }, w)
  set_connect_attr (current_catalog memory) dbc w = set_catalog (c_string memory) dbc w
  set_connect_attr ignored dbc w = (success, dbc, w)

pub data GetConnect : Type 0 where
  get_autocommit get_connection_dead get_login_timeout get_txn_isolation get_unknown : GetConnect
  get_current_catalog : Bool → ℤ → GetConnect

pub data Shown : Type 0 where
  number_shown : ℕ → Shown
  text_shown : Copied → Shown
  not_shown : Return → Shown

-- A cast of an int to SQLULEN, 64 bits.
unfoldable pub as_ulen : ℤ → ℕ
as_ulen (pos n) = n
as_ulen (negsuc n) = 18446744073709551615 - n

unfoldable pub get_connect_attr : GetConnect → Dbc → Shown
get_connect_attr get_autocommit dbc = number_shown (if dbc.autocommit then 1 else 0)
get_connect_attr get_connection_dead dbc = number_shown (if dbc.connected then 0 else 1)
get_connect_attr get_login_timeout dbc = number_shown (as_ulen dbc.login_timeout)
get_connect_attr (get_current_catalog present size) dbc =
    text_shown (copy_string (or_empty dbc.database) present (wrap_int 32768 size))
get_connect_attr get_txn_isolation dbc = number_shown 2
get_connect_attr get_unknown dbc =
    not_shown (error (codes "HY092") (codes "Unsupported connection attribute"))
