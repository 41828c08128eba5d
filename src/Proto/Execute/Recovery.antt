-- ===== src/Proto/Execute/Recovery.antt =====
-- What an execution of src/proto.c does about a session that the engine no longer holds.
use frostlake_odbc.Base.{
  ℕ, Bool, true, false, ◌≡◌, refl, sym, ap, ◌∙◌, ◌||◌, Option, none, some, ◌∷◌, Bytes, arith,
  if◌then◌else◌, Bool-cases, inl, inr,
}
use frostlake_odbc.Json.Value.{Json}
use frostlake_odbc.Dbc.{Dbc}
use frostlake_odbc.Proto.Request.{build_request}
use frostlake_odbc.Proto.Server.{Server, Answer, failed, answered}
use frostlake_odbc.Proto.Lifecycle.{Lost, transaction, context, forget_session, lose_session}
use frostlake_odbc.Proto.Post.{
  lost, gone, World, take_answer, receive, is_gone, is_some, post, send,
}
use frostlake_odbc.Proto.Scope.{apply_scope}
use frostlake_odbc.Proto.Execute.{
  failure, after_scope, after_post, resend, recover, send_statement, execute_as, execute_counted,
}

-- A refusal of the session changes nothing on the connection.
module _ {dbc dbc' : Dbc} where
  receive-gone :
      (status : ℕ) (body : Bytes) (root : Option Json)
      → receive dbc status body root ≡ (gone, dbc')
      → dbc' ≡ dbc
  unfolding receive
  receive-gone status body none h = ground arith
  receive-gone status body (some root) h =
      elim (Bool-cases (is_gone (is_some dbc.session_id) status root)) [
        | inl e ↦ ground arith
        | inr e ↦ ground arith
      ]

  take_answer-gone : (a : Answer) → take_answer dbc a ≡ (gone, dbc') → dbc' ≡ dbc
  unfolding take_answer
  take_answer-gone (failed message) h = ground arith
  take_answer-gone (answered status body) h = receive-gone status _ _ h

module _ (server : Server) where
  -- The one request that a call of `post` sends.
  pub posted-post :
      (dbc : Dbc) (sql : Bytes) (count : Option ℕ) (w : World server)
      → (post server dbc sql count w).2.posted ≡ build_request dbc sql count ∷ w.posted
  unfolding post send
  posted-post dbc sql count w = refl

  pub post-gone :
      (sql : Bytes) (count : Option ℕ) {dbc dbc' : Dbc} (w : World server) {w' : World server}
      → post server dbc sql count w ≡ (gone, dbc', w')
      → dbc' ≡ dbc
  unfolding post
  post-gone sql count {dbc} w h = take_answer-gone _ (ap (λ p. (p.0, p.1)) h)

  -- Which message a lost session is reported with.
  abbrev pub what_is_lost : Dbc → Lost
  what_is_lost dbc = if dbc.in_transaction then transaction else context

  resend-open :
      (sql : Bytes) (count : Option ℕ) (tracked : Bool) (dbc : Dbc) (w : World server)
      → (dbc.in_transaction || dbc.session_dirty) ≡ true
      → resend server sql count tracked (lose_session dbc) w
        ≡ (failure (lost (what_is_lost dbc)), forget_session dbc, w)
  unfolding resend lose_session
  resend-open sql count tracked dbc w h = go dbc.in_transaction dbc.session_dirty h
    where
      go :
          (t d : Bool)
          → (t || d) ≡ true
          → resend server sql count tracked
              (forget_session dbc, if t then some transaction else if d then some context else none)
              w
            ≡ (failure (lost (if t then transaction else context)), forget_session dbc, w)
      go true d h = refl
      go false true h = refl
      go false false h = ground arith

  after_gone :
      (tracked recovers : Bool) (sql : Bytes) (count : Option ℕ) (dbc : Dbc) (w : World server)
      {dbc' : Dbc} {w' : World server}
      → dbc.scope_pending ≡ false
      → post server dbc sql count w ≡ (gone, dbc', w')
      → execute_as server tracked recovers sql count dbc w
        ≡ recover server recovers sql count tracked dbc w'
  unfolding execute_as send_statement after_post
  after_gone tracked recovers sql count dbc w {w'} e h =
      ap
        (λ b.
          if b
          then after_scope server (send_statement server tracked recovers sql count)
              (apply_scope server dbc w)
          else send_statement server tracked recovers sql count dbc w)
        e
      ∙ ap (after_post server (recover server recovers sql count tracked) tracked sql) h
      ∙ ap (λ d. recover server recovers sql count tracked d w') (post-gone sql count w h)

  posted-gone :
      (sql : Bytes) (count : Option ℕ) (dbc : Dbc) (w : World server) {dbc' : Dbc}
      {w' : World server}
      → post server dbc sql count w ≡ (gone, dbc', w')
      → w'.posted ≡ build_request dbc sql count ∷ w.posted
  posted-gone sql count dbc w h = ap (λ p. p.2.posted) (sym h) ∙ posted-post dbc sql count w

  -- With no scope left to put on, when the engine refuses the session of a statement and a
  -- transaction was open on it or its context had been moved, `fl_proto_execute_counted` reports
  -- which of the two was lost, forgets the session, and has sent one request: the statement is not
  -- sent again.
  pub execute_counted-lost :
      (sql : Bytes) (count : Option ℕ) (dbc : Dbc) (w : World server) {dbc' : Dbc}
      {w' : World server}
      → dbc.scope_pending ≡ false
      → (dbc.in_transaction || dbc.session_dirty) ≡ true
      → post server dbc sql count w ≡ (gone, dbc', w')
      → (execute_counted server sql count dbc w
          ≡ (failure (lost (what_is_lost dbc)), forget_session dbc, w'))
        × (w'.posted ≡ build_request dbc sql count ∷ w.posted)
  unfolding execute_counted recover
  execute_counted-lost sql count dbc w {w'} e held h = (
    after_gone true true sql count dbc w e h ∙ resend-open sql count true dbc w' held,
    posted-gone sql count dbc w h,
  )
