-- ===== src/Connect/Tests.antt =====
-- Calls on a connection, with a server that answers nothing that is JSON.
mod Offers
use frostlake_odbc.Base.{
  ℕ, ◌≡◌, ◌⊎◌, ◌+◌, refl, true, false, none, List, [], ◌∷◌, Bytes, All, codes, arith,
}
use frostlake_odbc.Base.Int.{ℤ}
use frostlake_odbc.Dbc.{alloc_dbc}
use frostlake_odbc.Proto.Server.{Server, Answer, answered}
use frostlake_odbc.Proto.Post.{World}
use frostlake_odbc.Connect.Text.{conn_str_get}
use frostlake_odbc.Connect.Text.Lookup.{
  Attribute, IsAttribute, IsValue, conn_text, find_attribute, conn_str_get-conn_text,
}
use frostlake_odbc.Connect.Open.{driver_connect}
use frostlake_odbc.Connect.Open.Outcome.{IsLive, IsIdle, IsOutcome}
use frostlake_odbc.Connect.Open.Logins.{driver_connect-IsOutcome}
use frostlake_odbc.Connect.Attr.{autocommit}
use frostlake_odbc.Connect.Run.{
  ConnCall, to_driver_connect, to_disconnect, to_end_tran, to_set_attr, conn_run,
}
use frostlake_odbc.Connect.Run.Consistent.{conn_run-IsConsistent}

abbrev mute : Server
mute = record {
  State = ℕ;
  post_execute = λ n body. (answered 500 (codes "oops"), n + 1);
  delete_path = λ n path limit. n + 1;
}

abbrev healthy : ℕ → Bytes → ℕ → ℤ → Answer × ℕ
healthy n host port limit = (answered 200 (codes "{}"), n + 1)

abbrev no_ini : Bytes → Bytes → Bytes
no_ini dsn key = []

abbrev rested : World mute
rested = record { state = 0; posted = [] }

abbrev conn_sample : Bytes
conn_sample = codes "Server=db;Port=18082;Database=SALES;"

driver_connect-IsOutcome_example :
    IsOutcome mute healthy (driver_connect mute healthy no_ini none conn_sample alloc_dbc rested)
driver_connect-IsOutcome_example =
    driver_connect-IsOutcome mute healthy no_ini none conn_sample alloc_dbc rested
      (unfold alloc_dbc in record { not_connected = refl; no_session = refl })

abbrev calls : List ConnCall
calls =
    to_driver_connect none conn_sample
    ∷ to_set_attr (autocommit false)
    ∷ to_end_tran true
    ∷ to_disconnect
    ∷ []

conn_run-IsConsistent_example :
    IsLive (conn_run mute healthy no_ini calls alloc_dbc rested).0
    ⊎ IsIdle (conn_run mute healthy no_ini calls alloc_dbc rested).0
conn_run-IsConsistent_example = conn_run-IsConsistent mute healthy no_ini calls rested

abbrev two_attributes : List Attribute
two_attributes =
    record { key = codes "Uid"; text = codes "a;b"; braced = true }
    ∷ record { key = codes "PORT"; text = codes "18082"; braced = false }
    ∷ []

two-IsAttribute : All IsAttribute two_attributes
unfolding IsAttribute IsValue
two-IsAttribute = omega arith

conn_str_get-conn_text_example :
    conn_str_get (conn_text two_attributes) (codes "Port")
    ≡ find_attribute (codes "Port") two_attributes
conn_str_get-conn_text_example =
    conn_str_get-conn_text two_attributes (codes "Port") two-IsAttribute
