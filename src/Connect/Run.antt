-- ===== src/Connect/Run.antt =====
-- Any sequence of calls on a connection, in the order in which the application makes them.
pub mod Consistent
use frostlake_odbc.Base.{ℕ, Bool, Option, List, [], ◌∷◌, Bytes}
use frostlake_odbc.Base.Int.{ℤ}
use frostlake_odbc.Dbc.{Dbc}
use frostlake_odbc.Proto.Server.{Server, Answer}
use frostlake_odbc.Proto.Post.{World}
use frostlake_odbc.Results.Convert.Model.{Return, success}
use frostlake_odbc.Connect.Open.{Opened, sql_connect, driver_connect, disconnect}
use frostlake_odbc.Connect.Attr.{SetConnect, end_tran, set_connect_attr}

-- The calls that a connection's state depends on, with their arguments; SQLGetConnectAttr and
-- SQLGetInfo only read.
pub data ConnCall : Type 0 where
  to_connect to_driver_connect : Option ℕ → Bytes → ConnCall
  to_disconnect : ConnCall
  to_end_tran : Bool → ConnCall
  to_set_attr : SetConnect → ConnCall

module _ (server : Server) (health : server.State → Bytes → ℕ → ℤ → Answer × server.State)
    (ini : Bytes → Bytes → Bytes) where
  unfoldable pub conn_step : ConnCall → Dbc → World server → Opened server health
  conn_step (to_connect n text) dbc w = sql_connect server health ini n text dbc w
  conn_step (to_driver_connect n text) dbc w = driver_connect server health ini n text dbc w
  conn_step to_disconnect dbc w = disconnect server health dbc w
  conn_step (to_end_tran commit) dbc w = end_tran server commit dbc w
  conn_step (to_set_attr attr) dbc w = set_connect_attr server attr dbc w

  unfoldable pub conn_run : List ConnCall → Dbc → World server → Dbc × World server
  conn_run [] dbc w = (dbc, w)
  conn_run (call ∷ calls) dbc w =
      let reached = conn_step call dbc w in conn_run calls reached.1 reached.2
