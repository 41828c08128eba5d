-- ===== src/Proto/Post/Keeps.antt =====
-- What `absorb_session` and `post` of src/proto.c can do to the connection.
use frostlake_odbc.Base.{
  Bool, true, false, Option, none, some, ℕ, Bytes, codes, ◌&&◌, Bool-cases, inl, inr, if◌then◌else◌,
}
use frostlake_odbc.Json.Value.{Json, null, bool, number, string, array, object, get, get_string}
use frostlake_odbc.Dbc.{Dbc}
use frostlake_odbc.Proto.Server.{Server, Answer, failed, answered}
use frostlake_odbc.Proto.Lifecycle.{
  reset_session_state, is_nonempty, absorb_started, absorb_session,
}
use frostlake_odbc.Proto.Post.{World, take_answer, receive, is_gone, is_some, post}

-- What an answer does to a connection is to name the session, to settle whether sessions are
-- tracked, and to reset the session's state or not.
pub absorbed-keeps :
    (P : Dbc → Type 0)
    → ((dbc : Dbc) (name : Option Bytes) → P dbc → P (record dbc { session_id = name }))
    → ((dbc : Dbc) (s : _) → P dbc → P (record dbc { tracks_sessions = s }))
    → ((dbc : Dbc) → P dbc → P (reset_session_state dbc))
    → (dbc : Dbc) (root : Json) (sent : Bool) → P dbc
    → P (absorb_session dbc root sent)
unfolding absorb_session absorb_started
absorbed-keeps P named tracks reset dbc root sent h =
    choose (is_nonempty name) (get (some root) (codes "newSession"))
  where
    name : Option Bytes
    name = get_string (some root) (codes "sessionId")

    fresh : (b : Bool) (d : Dbc) → P d → P (if b then reset_session_state d else d)
    fresh true d k = reset d k
    fresh false d k = k

    start : (j : Option Json) (d : Dbc) → P d → P (absorb_started j sent d)
    start none d k = tracks d _ k
    start (some (bool b)) d k = fresh (sent && b) _ (tracks d _ k)
    start (some null) d k = tracks d _ k
    start (some (number n)) d k = tracks d _ k
    start (some (string n)) d k = tracks d _ k
    start (some (array n)) d k = tracks d _ k
    start (some (object n)) d k = tracks d _ k

    choose :
        (b : Bool) (j : Option Json)
        → P (if b then absorb_started j sent (record dbc { session_id = name }) else dbc)
    choose true j = start j _ (named dbc name h)
    choose false j = h

module _ (server : Server) (P : Dbc → Type 0)
    (absorbed : (dbc : Dbc) (root : Json) (sent : Bool)
      → P dbc
      → P (absorb_session dbc root sent)) where
  receive-keeps :
      (dbc : Dbc) (status : ℕ) (body : Bytes) (root : Option Json)
      → P dbc
      → P (receive dbc status body root).1
  unfolding receive
  receive-keeps dbc status body none h = h
  receive-keeps dbc status body (some root) h =
      elim (Bool-cases (is_gone (is_some dbc.session_id) status root)) [
        | inl e ↦ rw e h
        | inr e ↦ rw e (absorbed dbc root (is_some dbc.session_id) h)
      ]

  take_answer-keeps : (dbc : Dbc) (a : Answer) → P dbc → P (take_answer dbc a).1
  unfolding take_answer
  take_answer-keeps dbc (failed message) h = h
  take_answer-keeps dbc (answered status body) h = receive-keeps dbc status _ _ h

  pub post-keeps :
      (dbc : Dbc) (sql : Bytes) (count : Option ℕ) (w : World server)
      → P dbc
      → P (post server dbc sql count w).1
  unfolding post
  post-keeps dbc sql count w h = take_answer-keeps dbc _ h
