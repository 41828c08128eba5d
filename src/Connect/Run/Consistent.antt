-- ===== src/Connect/Run/Consistent.antt =====
-- What the calls of src/connect.c keep true of a connection.
use frostlake_odbc.Base.{
  ℕ, Bool, true, false, ◌&&◌, not, ◌≡◌, refl, arith, Option, none, some, List, [], ◌∷◌, Bytes,
  codes, inl, inr, ◌⊎◌, if◌then◌else◌, c_string,
}
use frostlake_odbc.Response.Decode.{half_int}
use frostlake_odbc.Base.Int.{ℤ, pos, wrap_int}
use frostlake_odbc.Dbc.{Dbc, alloc_dbc}
use frostlake_odbc.Results.Convert.Model.{success, no_more, with_info, failed}
use frostlake_odbc.Proto.Server.{Server, Answer}
use frostlake_odbc.Proto.Post.{World}
use frostlake_odbc.Proto.Execute.{answer, failure, Run, execute_counted, execute}
use frostlake_odbc.Proto.Release.{release}
use frostlake_odbc.Connect.Open.{
  Opened, closed, give_up, already_open, sql_connect, driver_connect, disconnect,
}
use frostlake_odbc.Connect.Open.Outcome.{IsLive, IsIdle, IsOutcome, IsLive-execute_as}
use frostlake_odbc.Connect.Open.Logins.{sql_connect-IsOutcome, driver_connect-IsOutcome}
use frostlake_odbc.Connect.Attr.{
  same, SetConnect, autocommit, login_timeout, current_catalog, ignored, with_autocommit,
  with_catalog, judged, after_run, end_tran, set_autocommit, set_catalog, set_connect_attr,
}
use frostlake_odbc.Connect.Run.{
  ConnCall, to_connect, to_driver_connect, to_disconnect, to_end_tran, to_set_attr, conn_step,
  conn_run,
}

-- Connected to a host, or not connected and without a session.
abbrev pub IsConsistent : Dbc → Type 0
IsConsistent dbc = IsLive dbc ⊎ IsIdle dbc

module _ (server : Server) (health : server.State → Bytes → ℕ → ℤ → Answer × server.State)
    (ini : Bytes → Bytes → Bytes) where
  outcome : (o : Opened server health) → IsOutcome server health o → IsConsistent o.1
  unfolding IsOutcome
  outcome (success, dbc, w) h = inl h
  outcome (failed d, dbc, w) h = inr h
  outcome (no_more, dbc, w) h = elim h [ ]
  outcome (with_info d, dbc, w) h = elim h [ ]

  if_connected :
      (b : Bool) (x y : Opened server health)
      → (b ≡ true → IsConsistent x.1)
      → (b ≡ false → IsConsistent y.1)
      → IsConsistent (if b then x else y).1
  if_connected true x y p q = p refl
  if_connected false x y p q = q refl

  connect-keeps :
      (n : Option ℕ) (text : Bytes) (dbc : Dbc) (w : World server)
      → IsConsistent dbc
      → IsConsistent (sql_connect server health ini n text dbc w).1
  connect-keeps n text dbc w (inl h) =
      unfold sql_connect already_open in
      if_connected dbc.connected _ _ (λ e. inl h) (λ e. ground (arith, h.is_connected, e))
  connect-keeps n text dbc w (inr h) =
      outcome _ (sql_connect-IsOutcome server health ini n text dbc w h)

  driver_connect-keeps :
      (n : Option ℕ) (text : Bytes) (dbc : Dbc) (w : World server)
      → IsConsistent dbc
      → IsConsistent (driver_connect server health ini n text dbc w).1
  driver_connect-keeps n text dbc w (inl h) =
      unfold driver_connect already_open in
      if_connected dbc.connected _ _ (λ e. inl h) (λ e. ground (arith, h.is_connected, e))
  driver_connect-keeps n text dbc w (inr h) =
      outcome _ (driver_connect-IsOutcome server health ini n text dbc w h)

  disconnect-keeps :
      (dbc : Dbc) (w : World server)
      → IsConsistent dbc
      → IsConsistent (disconnect server health dbc w).1
  unfolding disconnect give_up release closed
  disconnect-keeps dbc w h =
      if_connected dbc.connected _ _ (λ e. inr (record { not_connected = refl; no_session = refl }))
        (λ e. h)

  judged-keeps :
      (refused : Bytes) (done : Dbc → Dbc) (message : Option Bytes) (dbc : Dbc) (w : World server)
      → ((d : Dbc) → IsLive d → IsLive (done d))
      → IsLive dbc
      → IsConsistent (judged server refused done message dbc w).1
  unfolding judged
  judged-keeps refused done none dbc w g h = inl (g dbc h)
  judged-keeps refused done (some message) dbc w g h = inl h

  after_run-keeps :
      (unanswered refused : Bytes) (done : Dbc → Dbc) (run : Run server)
      → ((d : Dbc) → IsLive d → IsLive (done d))
      → IsLive run.1
      → IsConsistent (after_run server unanswered refused done run).1
  unfolding after_run
  after_run-keeps unanswered refused done (failure what, dbc, w) g h = inl h
  after_run-keeps unanswered refused done (answer r, dbc, w) g h =
      judged-keeps refused done r.error_message dbc w g h

  live : (dbc : Dbc) → IsConsistent dbc → dbc.connected ≡ true → IsLive dbc
  live dbc (inl h) e = h
  live dbc (inr h) e = ground (arith, h.not_connected, e)

  execute-IsLive :
      (sql : Bytes) (dbc : Dbc) (w : World server)
      → IsConsistent dbc
      → dbc.connected ≡ true
      → IsLive (execute server sql dbc w).1
  unfolding execute execute_counted
  execute-IsLive sql dbc w h e = IsLive-execute_as server health true true sql dbc w (live dbc h e)

  end_tran-keeps :
      (commit : Bool) (dbc : Dbc) (w : World server)
      → IsConsistent dbc
      → IsConsistent (end_tran server commit dbc w).1
  unfolding end_tran
  end_tran-keeps commit dbc w h =
      if_connected dbc.connected _ _
        (λ e.
          after_run-keeps (codes "08S01") (codes "25000") (λ d. d) _ (λ d k. k)
            (execute-IsLive _ dbc w h e))
        (λ e. h)

  and-left : (a b : Bool) → (a && b) ≡ true → a ≡ true
  and-left true b h = refl
  and-left false b h = h

  -- A field that no part of the statement reads.
  with_autocommit-keeps :
      (b : Bool) (dbc : Dbc) → IsConsistent dbc → IsConsistent (with_autocommit b dbc)
  unfolding with_autocommit
  with_autocommit-keeps b dbc (inl h) =
      inl (record { is_connected = h.is_connected; has_host = h.has_host })
  with_autocommit-keeps b dbc (inr h) =
      inr (record { not_connected = h.not_connected; no_session = h.no_session })

  with_catalog-keeps :
      (name : Bytes) (dbc : Dbc) → IsConsistent dbc → IsConsistent (with_catalog name dbc)
  unfolding with_catalog
  with_catalog-keeps name dbc (inl h) =
      inl (record { is_connected = h.is_connected; has_host = h.has_host })
  with_catalog-keeps name dbc (inr h) =
      inr (record { not_connected = h.not_connected; no_session = h.no_session })

  set_autocommit-keeps :
      (wanted : Bool) (dbc : Dbc) (w : World server)
      → IsConsistent dbc
      → IsConsistent (set_autocommit server wanted dbc w).1
  unfolding set_autocommit
  set_autocommit-keeps wanted dbc w h =
      if_connected (dbc.connected && not (same wanted dbc.autocommit)) _ _
        (λ e.
          after_run-keeps (codes "08S01") (codes "HY000") (with_autocommit wanted) _
            (λ d k.
              unfold with_autocommit in
              record { is_connected = k.is_connected; has_host = k.has_host })
            (IsLive-execute_as server health false true _ dbc w
              (live dbc h (and-left dbc.connected _ e))))
        (λ e. with_autocommit-keeps wanted dbc h)

  set_catalog-keeps :
      (name : Bytes) (dbc : Dbc) (w : World server)
      → IsConsistent dbc
      → IsConsistent (set_catalog server name dbc w).1
  unfolding set_catalog
  set_catalog-keeps name dbc w h =
      if_connected dbc.connected _ _
        (λ e.
          after_run-keeps (codes "HY000") (codes "HY000") (with_catalog name) _
            (λ d k.
              unfold with_catalog in
              record { is_connected = k.is_connected; has_host = k.has_host })
            (execute-IsLive _ dbc w h e))
        (λ e. with_catalog-keeps name dbc h)

  set_timeout-keeps :
      (n : ℤ) (dbc : Dbc) → IsConsistent dbc → IsConsistent (record dbc { login_timeout = n })
  set_timeout-keeps n dbc (inl h) =
      inl (record { is_connected = h.is_connected; has_host = h.has_host })
  set_timeout-keeps n dbc (inr h) =
      inr (record { not_connected = h.not_connected; no_session = h.no_session })

  set_connect_attr-keeps :
      (attr : SetConnect) (dbc : Dbc) (w : World server)
      → IsConsistent dbc
      → IsConsistent (set_connect_attr server attr dbc w).1
  unfolding set_connect_attr
  set_connect_attr-keeps (autocommit b) dbc w h = set_autocommit-keeps b dbc w h
  set_connect_attr-keeps (login_timeout n) dbc w h =
      set_timeout-keeps (wrap_int half_int (pos n)) dbc h
  set_connect_attr-keeps (current_catalog memory) dbc w h =
      set_catalog-keeps (c_string memory) dbc w h
  set_connect_attr-keeps ignored dbc w h = h

  conn_step-keeps :
      (call : ConnCall) (dbc : Dbc) (w : World server)
      → IsConsistent dbc
      → IsConsistent (conn_step server health ini call dbc w).1
  unfolding conn_step
  conn_step-keeps (to_connect n text) dbc w h = connect-keeps n text dbc w h
  conn_step-keeps (to_driver_connect n text) dbc w h = driver_connect-keeps n text dbc w h
  conn_step-keeps to_disconnect dbc w h = disconnect-keeps dbc w h
  conn_step-keeps (to_end_tran commit) dbc w h = end_tran-keeps commit dbc w h
  conn_step-keeps (to_set_attr attr) dbc w h = set_connect_attr-keeps attr dbc w h

  runs :
      (calls : List ConnCall) (dbc : Dbc) (w : World server)
      → IsConsistent dbc
      → IsConsistent (conn_run server health ini calls dbc w).0
  unfolding conn_run
  runs [] dbc w h = h
  runs (call ∷ calls) dbc w h = runs calls _ _ (conn_step-keeps call dbc w h)

  -- After any sequence of calls on a connection that was just allocated, whatever the strings, the
  -- data source and the server's answers, the connection is either open with a host set, or it is
  -- not open and keeps no session.
  pub conn_run-IsConsistent :
      (calls : List ConnCall) (w : World server)
      → IsLive (conn_run server health ini calls alloc_dbc w).0
        ⊎ IsIdle (conn_run server health ini calls alloc_dbc w).0
  conn_run-IsConsistent calls w =
      runs calls alloc_dbc w
        (inr (unfold alloc_dbc in record { not_connected = refl; no_session = refl }))
