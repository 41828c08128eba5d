-- ===== src/Proto/Post.antt =====
-- `post` of src/proto.c: one POST /api/execute, without any recovery.
pub mod Keeps
use frostlake_odbc.Base.{
  ℕ, Bool, true, false, ◌&&◌, not, Option, none, some, List, [], ◌∷◌, ◌==◌, if◌then◌else◌, Bytes,
  codes, c_string,
}
use frostlake_odbc.Json.Value.{Json, get, get_string, get_bool}
use frostlake_odbc.Json.Reader.{parse}
use frostlake_odbc.Dbc.{Dbc}
use frostlake_odbc.Response.Model.{Response}
use frostlake_odbc.Response.Decode.{decode_sets}
use frostlake_odbc.Proto.Request.{build_request}
use frostlake_odbc.Proto.Server.{Answer, failed, answered, Server}
use frostlake_odbc.Proto.Lifecycle.{Lost, is_nonempty, absorb_session}

-- What *transport_error can hold: a transport failure's message, an answer that is no JSON, with
-- its status, or one of the messages of a lost session.
pub data Failure : Type 0 where
  transport : Bytes → Failure
  unparseable : ℕ → Bytes → Failure
  lost : Lost → Failure

-- A decoded response; `gone`, the engine holds no such session and nothing ran; or a failure.
pub data Posted : Type 0 where
  responded : Response → Posted
  gone : Posted
  broken : Failure → Posted

-- The server's state, and the bodies that were posted to it, the latest first.
pub record World (server : Server) : Type 0 where
  pub state : server.State
  pub posted : List Bytes

unfoldable pub is_some : Option Bytes → Bool
is_some none = false
is_some (some s) = true

unfoldable pub first_some : Option Bytes → Option Bytes → Bytes
first_some (some message) other = message
first_some none (some message) = message
first_some none none = codes "unknown server error"

unfoldable pub decode_response : Json → Response
decode_response root =
    let success = get_bool (some root) (codes "success") false in
    record {
      sets = if success then decode_sets (get (some root) (codes "resultSets")) else [];
      session_id = get_string (some root) (codes "sessionId");
      error_message =
          if success
          then none
          else some (
              first_some (get_string (some root) (codes "errorMessage"))
                (get_string (some root) (codes "error")));
    }

-- The engine refused the session id as one that it does not hold.
unfoldable pub is_gone : Bool → ℕ → Json → Bool
is_gone sent status root =
    sent
    && status == 404
    && not (get_bool (some root) (codes "success") false)
    && not (is_nonempty (get_string (some root) (codes "sessionId")))

unfoldable pub receive : Dbc → ℕ → Bytes → Option Json → Posted × Dbc
receive dbc status body none = (broken (unparseable status body), dbc)
receive dbc status body (some root) =
    let sent = is_some dbc.session_id in
    if is_gone sent status root
    then (gone, dbc)
    else (responded (decode_response root), absorb_session dbc root sent)

-- The body ends at its first NUL, as `strlen` reads it.
unfoldable pub take_answer : Dbc → Answer → Posted × Dbc
take_answer dbc (failed message) = (broken (transport message), dbc)
take_answer dbc (answered status body) = receive dbc status (c_string body) (parse (c_string body))

module _ (server : Server) where
  unfoldable pub send : World server → Bytes → Answer × World server
  send w body =
      let reply = server.post_execute w.state body in
      (reply.0, record { state = reply.1; posted = body ∷ w.posted })

  unfoldable pub post : Dbc → Bytes → Option ℕ → World server → Posted × Dbc × World server
  post dbc sql count w =
      let reply = send w (build_request dbc sql count) in
      let taken = take_answer dbc reply.0 in (taken.0, taken.1, reply.1)
