-- ===== src/Proto/Release.antt =====
-- `fl_proto_release` of src/proto.c: the session that a disconnect hands back.
pub mod Path
use frostlake_odbc.Base.{
  ℕ, ◌/◌, ◌%◌, Bool, true, false, ◌&&◌, ◌||◌, Option, none, some, [], ◌∷◌, ◌++◌, ◌==◌, ltb,
  if◌then◌else◌, Bytes, codes,
}
use frostlake_odbc.Base.Int.{ℤ, pos, negsuc}
use frostlake_odbc.Sql.Scanner.{is_upper, is_lower, is_digit}
use frostlake_odbc.Sql.Literal.{upper_hex}
use frostlake_odbc.Dbc.{Dbc}
use frostlake_odbc.Proto.Server.{Server}
use frostlake_odbc.Proto.Request.{is_present}
use frostlake_odbc.Proto.Post.{World}

abbrev pub release_limit : ℕ
release_limit = 5

-- A timeout that is set and below the limit lowers it.
unfoldable pub lower : ℕ → ℤ → ℕ
lower limit (negsuc timeout) = limit
lower limit (pos timeout) = if ltb 0 timeout && ltb timeout limit then timeout else limit

unfoldable pub limit_of : Dbc → ℕ
limit_of dbc = lower (lower release_limit dbc.login_timeout) (pos dbc.request_timeout)

unfoldable pub is_unreserved : ℕ → Bool
unfolding is_upper is_lower is_digit
is_unreserved c =
    is_upper c || is_lower c || is_digit c || c == b'-' || c == b'.' || c == b'_' || c == b'~'

-- The body of the loop over the id: the character, or `%%%02X`.
unfoldable pub path_byte : ℕ → Bytes
path_byte c =
    if is_unreserved c then c ∷ [] else b'%' ∷ upper_hex (c / 16) ∷ upper_hex (c % 16) ∷ []

unfoldable pub path_segment : Bytes → Bytes
path_segment [] = []
path_segment (c ∷ id) = path_byte c ++ path_segment id

module _ (server : Server) where
  unfoldable pub delete_session : Dbc → World server → Bytes → World server
  delete_session dbc w id = record w {
    state = server.delete_path w.state (codes "/api/sessions/" ++ path_segment id) (limit_of dbc);
  }

  unfoldable pub release_world : Dbc → Option Bytes → World server → World server
  release_world dbc none w = w
  release_world dbc (some id) w =
      if is_present dbc.tracks_sessions then delete_session dbc w id else w

  unfoldable pub release : Dbc → World server → Dbc × World server
  release dbc w = (record dbc { session_id = none }, release_world dbc dbc.session_id w)
