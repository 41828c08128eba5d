-- ===== src/Connect/Complete.antt =====
-- The connection string that SQLDriverConnect of src/connect.c completes.
pub mod Keys
pub mod Port
pub mod Finds
pub mod Again
use frostlake_odbc.Base.{
  ℕ, Bool, true, false, Option, none, some, [], ◌∷◌, ◌++◌, Bytes, codes, c_string, take,
}
use frostlake_odbc.Base.Int.{ℤ, pos}
use frostlake_odbc.Bind.Param.{text_of}
use frostlake_odbc.Dbc.{Dbc}
use frostlake_odbc.Results.Convert.Model.{Return, success, no_more, with_info, failed}
use frostlake_odbc.Proto.Request.{decimal}
use frostlake_odbc.Proto.Server.{Server, Answer}
use frostlake_odbc.Proto.Post.{World}
use frostlake_odbc.Statement.Describe.{Copied, copy_string}
use frostlake_odbc.Connect.Text.{conn_str_get}
use frostlake_odbc.Connect.Open.{or_localhost, key_of, driver_connect}

-- An attribute, when its value is there.
unfoldable pub part : Bytes → Option Bytes → Bytes
part front none = []
part front (some value) = front ++ value

unfoldable pub completed_text : Bytes → ℕ → Option Bytes → Option Bytes → Bytes
completed_text host port database schema =
    codes "Driver={Frostlake ODBC Driver};Server="
    ++ (host
        ++ (codes ";Port="
            ++ (decimal port
                ++ (part (codes ";Database=") database ++ part (codes ";Schema=") schema))))

-- snprintf into 2048 bytes.
unfoldable pub completed : Bytes → ℕ → Option Bytes → Option Bytes → Bytes
completed host port database schema = take 2047 (completed_text host port database schema)

-- What is written to OutConnectionString, when it is given and the connection is open; the length
-- that StringLength2Ptr gets is its length, or 0.
unfoldable pub complete : Bool → ℤ → Return → Bytes → Option Copied
complete false size code text = none
complete true size success text = some (copy_string text true size)
complete true size no_more text = none
complete true size (with_info d) text = none
complete true size (failed d) text = none

unfoldable pub completed_length : Option Copied → ℤ
completed_length none = pos 0
completed_length (some c) = c.length

unfoldable pub driver_connect_completed :
    (server : Server)
    → (server.State → Bytes → ℕ → ℤ → Answer × server.State)
    → (Bytes → Bytes → Bytes)
    → Option ℕ
    → Bytes
    → Bool
    → ℤ
    → Dbc
    → World server
    → (Return × Dbc × World server) × Option Copied
driver_connect_completed server health ini length memory given size dbc w =
    let conn = c_string (take 2047 (text_of length memory)) in
    let dsn = conn_str_get conn (codes "DSN") in
    let (code, next, v) = driver_connect server health ini length memory dbc w in
    (
      (code, next, v),
      complete given size code (
          completed (or_localhost next.host) next.port
            (key_of server health ini conn dsn (codes "Database"))
            (key_of server health ini conn dsn (codes "Schema"))),
    )
