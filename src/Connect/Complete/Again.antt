-- ===== src/Connect/Complete/Again.antt =====
-- The completed connection string of src/connect.c, given back to SQLDriverConnect.
use frostlake_odbc.Base.{
  ℕ, ◌≡◌, ◌≢◌, ◌≤◌, ◌<◌, refl, ap, sym, ◌∙◌, arith, Bool, true, false, Option, none, some, [], ◌∷◌,
  if◌then◌else◌, Bytes, codes, All, length, take, c_string, subst, All-append,
}
use frostlake_odbc.Base.Int.{ℤ}
use frostlake_odbc.Proto.Request.{decimal}
use frostlake_odbc.Connect.Text.{conn_str_get}
use frostlake_odbc.Connect.Text.Lookup.{IsValue}
use frostlake_odbc.Dbc.{Dbc}
use frostlake_odbc.Proto.Server.{Server, Answer}
use frostlake_odbc.Proto.Post.{World}
use frostlake_odbc.Bind.Param.{text_of}
use frostlake_odbc.Connect.Info.Cut.{take-all}
use frostlake_odbc.Connect.Open.{
  or_localhost, or_else, do_connect, at_port, connect_with, key_of, driver_connect,
}
use frostlake_odbc.Connect.Complete.{part, completed_text, completed}
use frostlake_odbc.Connect.Complete.Port.{parse_port-decimal}
use frostlake_odbc.Proto.Request.Decimal.{IsDigitChar, decimal-IsDigitChar}
use frostlake_odbc.Connect.Complete.Finds.{NoNul, IsGiven, Finds, completed_text-Finds}

All-part :
    (front_text : Bytes) (given : Option Bytes)
    → All (λ c. c ≢ 0) front_text
    → NoNul given
    → All (λ c. c ≢ 0) (part front_text given)
unfolding part NoNul
All-part front_text none h k = tt
All-part front_text (some text) h k = All-append (λ c. c ≢ 0) front_text text h k

completed-NoNul :
    (host : Bytes) (port : ℕ) (database schema : Option Bytes)
    → All (λ c. c ≢ 0) host
    → NoNul database
    → NoNul schema
    → All (λ c. c ≢ 0) (completed_text host port database schema)
unfolding completed_text
completed-NoNul host port database schema h d s =
    All-append (λ c. c ≢ 0) (codes "Driver={Frostlake ODBC Driver};Server=") _ (omega arith)
      (All-append (λ c. c ≢ 0) host _ h
        (All-append (λ c. c ≢ 0) (codes ";Port=") _ (omega arith)
          (All-append (λ c. c ≢ 0) (decimal port) _
            (of_digits (decimal port) (decimal-IsDigitChar port))
            (All-append (λ c. c ≢ 0) (part (codes ";Database=") database) _
              (All-part (codes ";Database=") database (omega arith) d)
              (All-part (codes ";Schema=") schema (omega arith) s)))))
  where
    of_digits : (s : Bytes) → All IsDigitChar s → All (λ c. c ≢ 0) s
    of_digits [] h = tt
    of_digits (c ∷ s) h = (λ e. omega (arith, h.0, e), of_digits s h.1)

c_string-NoNul : (s : Bytes) → All (λ c. c ≢ 0) s → c_string s ≡ s
c_string-NoNul [] h = refl
c_string-NoNul (c ∷ s) h = ground (arith, h.0, c_string-NoNul s h.1)

-- What is read back is what was completed.
read_back :
    (s : Bytes)
    → All (λ c. c ≢ 0) s
    → length s ≤ 2047
    → c_string (take 2047 (text_of none (take 2047 s))) ≡ s
unfolding text_of
read_back s h l =
    ap (λ t. c_string (take 2047 (c_string t))) (take-all s 2047 l)
    ∙ ap (λ t. c_string (take 2047 t)) (c_string-NoNul s h)
    ∙ ap c_string (take-all s 2047 l)
    ∙ c_string-NoNul s h

when_false : {A : Type 0} (b : Bool) (x y : A) → b ≡ false → (if b then x else y) ≡ y
when_false true x y e = absurd (ground (arith, e))
when_false false x y e = refl

module _ (server : Server) (health : server.State → Bytes → ℕ → ℤ → Answer × server.State) where
  connected_with :
      (ini : Bytes → Bytes → Bytes) (conn host : Bytes) (port : ℕ) (database schema : Option Bytes)
      (dbc : Dbc) (w : World server)
      → 0 < port
      → port ≤ 65535
      → Finds conn host port database schema
      → connect_with server health
          (codes "Port must be a number from 1 to 65535, got '")
          (key_of server health ini conn (conn_str_get conn (codes "DSN")) (codes "Server"))
          (key_of server health ini conn (conn_str_get conn (codes "DSN")) (codes "Port"))
          (key_of server health ini conn (conn_str_get conn (codes "DSN")) (codes "Database"))
          (key_of server health ini conn (conn_str_get conn (codes "DSN")) (codes "Schema"))
          (record dbc { dsn = or_else (conn_str_get conn (codes "DSN")) dbc.dsn })
          w
        ≡ do_connect server health database schema (record dbc { host = some host; port = port }) w
  unfolding key_of or_else Finds connect_with or_localhost at_port
  connected_with ini conn host port database schema dbc w l k
        (dsn, at_host, at_number, at_database, at_schema) =
      rw (dsn, at_host, at_number, at_database, at_schema, parse_port-decimal port l k) refl

-- Where the host, the database and the schema of an open connection hold no semicolon, opening
-- brace or NUL and the completed string is shorter than 2048 bytes: SQLDriverConnect on a closed
-- connection with that string does what `do_connect` does with the same host, port, database and
-- schema.
pub driver_connect-completed :
    (server : Server) (health : server.State → Bytes → ℕ → ℤ → Answer × server.State)
    (ini : Bytes → Bytes → Bytes) (host : Bytes) (port : ℕ) (database schema : Option Bytes)
    (dbc : Dbc) (w : World server)
    → IsValue false host × All (λ c. c ≢ 0) host
    → IsGiven database × NoNul database
    → IsGiven schema × NoNul schema
    → 0 < port
    → port ≤ 65535
    → length (completed_text host port database schema) ≤ 2047
    → dbc.connected ≡ false
    → driver_connect server health ini none (completed host port database schema) dbc w
      ≡ do_connect server health database schema (record dbc { host = some host; port = port }) w
driver_connect-completed server health ini host port database schema dbc w h d s l k room e =
    unfold driver_connect completed in
    when_false dbc.connected _ _ e
    ∙ connected_with server health ini _ host port database schema dbc w l k (
        subst (λ t. Finds t host port database schema) (sym whole)
          (completed_text-Finds host port database schema h.0 d.0 s.0))
  where
    whole :
        c_string (take 2047 (text_of none (take 2047 (completed_text host port database schema))))
        ≡ completed_text host port database schema
    whole = read_back _ (completed-NoNul host port database schema h.1 d.1 s.1) room
