-- ===== src/Connect/Open/Logins.antt =====
-- How SQLConnect and SQLDriverConnect of src/connect.c can end, from the health probe on.
use frostlake_odbc.Base.{
  ℕ, Bool, true, false, ◌≡◌, ◌≢◌, refl, arith, Option, none, some, ◌==◌, ◌++◌, Bytes, codes,
  if◌then◌else◌,
}
use frostlake_odbc.Base.Int.{ℤ}
use frostlake_odbc.Dbc.{Dbc}
use frostlake_odbc.Proto.Request.{decimal}
use frostlake_odbc.Proto.Server.{Server, Answer, answered}
use frostlake_odbc.Proto.Lifecycle.{session_reset}
use frostlake_odbc.Proto.Post.{World}
use frostlake_odbc.Statement.State.{error}
use frostlake_odbc.Connect.Text.{parse_port}
use frostlake_odbc.Connect.Open.{
  server_at, named, opened, Opened, use_database, after_probe, do_connect, at_port, connect_with,
  sql_connect, driver_connect,
}
use frostlake_odbc.Connect.Open.Outcome.{IsIdle, IsOutcome, use_database-IsOutcome, named-NotEmpty}

module _ (server : Server) (health : server.State → Bytes → ℕ → ℤ → Answer × server.State) where
  refused-IsOutcome :
      (state text : Bytes) (dbc : Dbc) (w : World server)
      → IsIdle dbc
      → IsOutcome server health (error state text, dbc, w)
  unfolding IsOutcome error
  refused-IsOutcome state text dbc w h = h

  after_probe-IsOutcome :
      (database schema : Option Bytes) (dbc : Dbc) (w : World server) (reply : Answer)
      → dbc.host ≢ none
      → IsIdle dbc
      → IsOutcome server health (after_probe server health database schema dbc w reply)
  unfolding after_probe
  after_probe-IsOutcome database schema dbc w (Answer.failed message) host h =
      refused-IsOutcome (codes "08001") _ dbc w h
  after_probe-IsOutcome database schema dbc w (answered status body) host h = choose (status == 200)
    where
      choose :
          (b : Bool)
          → IsOutcome server health (
              if b
              then use_database server health
                  (named database)
                  (named schema)
                  (opened database schema dbc)
                  w
              else (
                error (codes "08001") (
                    server_at dbc
                    ++ (codes " answered HTTP "
                        ++ (decimal status ++ codes " to the health probe"))),
                dbc,
                w,
              ))
      choose false = refused-IsOutcome (codes "08001") _ dbc w h
      choose true =
          use_database-IsOutcome server health _ _ (named-NotEmpty database) (named-NotEmpty schema)
            _ w (unfold opened session_reset in record { is_connected = refl; has_host = host })

  do_connect-IsOutcome :
      (database schema : Option Bytes) (dbc : Dbc) (w : World server)
      → IsIdle dbc
      → IsOutcome server health (do_connect server health database schema dbc w)
  unfolding do_connect
  do_connect-IsOutcome database schema dbc w h =
      after_probe-IsOutcome database schema _ _ _ (λ e. ground arith)
        (record { not_connected = h.not_connected; no_session = h.no_session })

  at_port-IsOutcome :
      (complaint text : Bytes) (database schema : Option Bytes) (dbc : Dbc) (w : World server)
      (port : Option ℕ)
      → IsIdle dbc
      → IsOutcome server health (at_port server health complaint text database schema dbc w port)
  unfolding at_port
  at_port-IsOutcome complaint text database schema dbc w none h =
      refused-IsOutcome (codes "HY000") _ dbc w h
  at_port-IsOutcome complaint text database schema dbc w (some port) h =
      do_connect-IsOutcome database schema _ w
        (record { not_connected = h.not_connected; no_session = h.no_session })

  connect_with-IsOutcome :
      (complaint : Bytes) (host port database schema : Option Bytes) (dbc : Dbc) (w : World server)
      → IsIdle dbc
      → IsOutcome server health
          (connect_with server health complaint host port database schema dbc w)
  unfolding connect_with
  connect_with-IsOutcome complaint host none database schema dbc w h =
      do_connect-IsOutcome database schema _ w
        (record { not_connected = h.not_connected; no_session = h.no_session })
  connect_with-IsOutcome complaint host (some text) database schema dbc w h =
      at_port-IsOutcome complaint text database schema _ w (parse_port text)
        (record { not_connected = h.not_connected; no_session = h.no_session })

  either-IsOutcome :
      (b : Bool) (x y : Opened server health)
      → b ≡ false
      → IsOutcome server health y
      → IsOutcome server health (if b then x else y)
  either-IsOutcome true x y e h = ground arith
  either-IsOutcome false x y e h = h

  pub sql_connect-IsOutcome :
      (ini : Bytes → Bytes → Bytes) (length : Option ℕ) (memory : Bytes) (dbc : Dbc)
      (w : World server)
      → IsIdle dbc
      → IsOutcome server health (sql_connect server health ini length memory dbc w)
  unfolding sql_connect
  sql_connect-IsOutcome ini length memory dbc w h =
      either-IsOutcome dbc.connected _ _ h.not_connected (
        connect_with-IsOutcome _ _ _ _ _ _ w
          (record { not_connected = h.not_connected; no_session = h.no_session }))

  -- SQLDriverConnect, on a connection that is not open and keeps no session, whatever the string,
  -- the data source and the server's answers, either succeeds with the connection open and a host
  -- set, or fails with the connection not open and no session kept: at the probe, at a port that is
  -- no number, or at any of the statements of the scope.
  pub driver_connect-IsOutcome :
      (ini : Bytes → Bytes → Bytes) (length : Option ℕ) (memory : Bytes) (dbc : Dbc)
      (w : World server)
      → IsIdle dbc
      → IsOutcome server health (driver_connect server health ini length memory dbc w)
  unfolding driver_connect
  driver_connect-IsOutcome ini length memory dbc w h =
      either-IsOutcome dbc.connected _ _ h.not_connected (
        connect_with-IsOutcome _ _ _ _ _ _ w
          (record { not_connected = h.not_connected; no_session = h.no_session }))
