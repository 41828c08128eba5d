-- ===== src/Proto/Request.antt =====
-- `build_request_json` of src/proto.c.
pub mod Decimal
pub mod WellFormed
use frostlake_odbc.Base.{
  ℕ, zero, suc, ◌+◌, ◌/◌, ◌%◌, Bool, true, false, Option, none, some, [], ◌∷◌, ◌++◌, ltb,
  if◌then◌else◌, Bytes, codes,
}
use frostlake_odbc.Json.Text.{append_json_string}
use frostlake_odbc.Dbc.{Dbc, Support, present}

-- `%ld` of a number that is not negative: its digits in front of `later`. One round for each
-- digit, and a number has fewer digits than its value plus one.
unfoldable pub decimal_loop : ℕ → ℕ → Bytes → Bytes
decimal_loop zero n later = later
decimal_loop (suc fuel) n later =
    let digits = (b'0' + n % 10) ∷ later in
    let more = decimal_loop fuel (n / 10) digits in if ltb n 10 then digits else more

unfoldable pub decimal : ℕ → Bytes
decimal n = decimal_loop (suc n) n []

unfoldable pub is_present : Support → Bool
is_present present = true
is_present _ = false

unfoldable pub append_session : Bytes → Option Bytes → Support → Bytes
append_session buf none tracks = buf
append_session buf (some id) tracks =
    let named = append_json_string (buf ++ codes ",\"sessionId\":") id in
    if is_present tracks then named ++ codes ",\"requireSession\":true" else named

-- `multi_statement_count`: `none` is a negative count, which leaves it to the session.
unfoldable pub append_count : Bytes → Option ℕ → Bytes
append_count buf none = buf
append_count buf (some n) = buf ++ (codes ",\"multiStatementCount\":" ++ decimal n)

unfoldable pub build_request : Dbc → Bytes → Option ℕ → Bytes
build_request dbc sql count =
    let opened = append_json_string (codes "{\"sql\":") sql in
    append_count (append_session opened dbc.session_id dbc.tracks_sessions) count
    ++ codes ",\"autoCommit\":true}"
