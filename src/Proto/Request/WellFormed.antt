-- ===== src/Proto/Request/WellFormed.antt =====
-- The request of src/proto.c through the reader of src/json.c.
use frostlake_odbc.Base.{ℕ, true, Option, none, some, Bytes, codes, if◌then◌else◌}
use frostlake_odbc.Json.Value.{Fields, bool, number, string, end, field}
use frostlake_odbc.Dbc.{Dbc, Support}
use frostlake_odbc.Proto.Request.{decimal, is_present}

-- The members behind "sql", from the last on.
abbrev pub closing : Fields
closing = field (codes "autoCommit") (bool true) end

abbrev pub count_fields : Option ℕ → Fields
count_fields none = closing
count_fields (some n) = field (codes "multiStatementCount") (number (decimal n)) closing

abbrev pub session_fields : Option Bytes → Support → Fields → Fields
session_fields none tracks rest = rest
session_fields (some id) tracks rest =
    field (codes "sessionId") (string id)
      (if is_present tracks then field (codes "requireSession") (bool true) rest else rest)

abbrev pub request_fields : Dbc → Bytes → Option ℕ → Fields
request_fields dbc sql count =
    field (codes "sql") (string sql)
      (session_fields dbc.session_id dbc.tracks_sessions (count_fields count))
