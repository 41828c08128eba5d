-- ===== src/Proto/Lifecycle.antt =====
-- The session's bookkeeping in src/proto.c: `reset_session_state`, `forget_session`,
-- `fl_proto_session_reset`, `lose_session` and `absorb_session`.
use frostlake_odbc.Base.{
  Bool, true, false, ◌&&◌, Option, none, some, [], ◌∷◌, if◌then◌else◌, Bytes, codes,
}
use frostlake_odbc.Json.Value.{Json, bool, get, get_string}
use frostlake_odbc.Dbc.{Dbc, Support, unknown, absent, present}

-- The messages LOST_TRANSACTION, LOST_CONTEXT and LOST_AGAIN, by name.
pub data Lost : Type 0 where
  transaction context again : Lost

unfoldable pub reset_session_state : Dbc → Dbc
reset_session_state dbc = record dbc {
  session_dirty = false;
  in_transaction = false;
  scope_pending = true;
  database = dbc.scope_database;
  schema = dbc.scope_schema;
}

unfoldable pub forget_session : Dbc → Dbc
forget_session dbc = record (reset_session_state dbc) { session_id = none }

unfoldable pub session_reset : Dbc → Dbc
session_reset dbc = record dbc {
  session_id = none;
  tracks_sessions = unknown;
  session_dirty = false;
  in_transaction = false;
  scope_pending = false;
}

-- `some` is the answer -1 with the message set.
unfoldable pub lose_session : Dbc → Dbc × Option Lost
lose_session dbc = (
  forget_session dbc,
  if dbc.in_transaction then some transaction else if dbc.session_dirty then some context else none,
)

unfoldable pub is_nonempty : Option Bytes → Bool
is_nonempty none = false
is_nonempty (some []) = false
is_nonempty (some (c ∷ s)) = true

unfoldable pub first_contact : Support → Support
first_contact unknown = absent
first_contact known = known

-- `started` is the member newSession, `sent` whether the request named a session.
unfoldable pub absorb_started : Option Json → Bool → Dbc → Dbc
absorb_started (some (bool fresh)) sent dbc =
    let tracking = record dbc { tracks_sessions = present } in
    if sent && fresh then reset_session_state tracking else tracking
absorb_started (some _) sent dbc = record dbc {
  tracks_sessions = first_contact dbc.tracks_sessions;
}
absorb_started none sent dbc = record dbc { tracks_sessions = first_contact dbc.tracks_sessions }

unfoldable pub absorb_session : Dbc → Json → Bool → Dbc
absorb_session dbc root sent =
    let session = get_string (some root) (codes "sessionId") in
    if is_nonempty session
    then absorb_started (get (some root) (codes "newSession")) sent
        (record dbc { session_id = session })
    else dbc
