-- ===== src/Proto/Execute/Full.antt =====
-- The shape of the result sets that an execution of src/proto.c answers.
use frostlake_odbc.Base.{
  ℕ, zero, suc, ◌+◌, ◌*◌, ◌≡◌, Bool, true, false, Option, none, some, Bytes, codes, All, length,
  Bool-cases, inl, inr, if◌then◌else◌,
}
use frostlake_odbc.Json.Value.{Json, get, at, get_bool}
use frostlake_odbc.Dbc.{Dbc}
use frostlake_odbc.Response.Model.{ResultSet}
use frostlake_odbc.Response.Decode.{count_of, decode_sets_from, decode_sets}
use frostlake_odbc.Response.Shape.{decode_set-full}
use frostlake_odbc.Proto.Server.{Server, Answer, failed, answered}
use frostlake_odbc.Proto.Lifecycle.{Lost, lose_session}
use frostlake_odbc.Proto.Post.{
  Posted, responded, gone, broken, World, take_answer, receive, is_gone, is_some, decode_response,
  post,
}
use frostlake_odbc.Proto.Scope.{applied, refused, scope_lost, ScopeRun, apply_scope}
use frostlake_odbc.Proto.Execute.{
  Executed, answer, failure, Run, refused_response, after_scope, after_post, lost_again, resend,
  recover, send_statement, execute_as,
}

-- Every column that is counted is described, and the cells fill the rows.
unfoldable pub IsFull : ResultSet → Type 0
IsFull set =
    (length set.columns ≡ set.column_count) × (length set.cells ≡ set.row_count * set.column_count)

unfoldable pub FullAnswer : Executed → Type 0
FullAnswer (answer r) = All IsFull r.sets
FullAnswer (failure what) = Unit

unfoldable pub FullPosted : Posted → Type 0
FullPosted (responded r) = All IsFull r.sets
FullPosted gone = Unit
FullPosted (broken what) = Unit

decode_sets_from-IsFull :
    (sets : Option Json) (left i : ℕ) → All IsFull (decode_sets_from sets left i)
unfolding decode_sets_from IsFull
decode_sets_from-IsFull sets zero i = tt
decode_sets_from-IsFull sets (suc left) i =
    (decode_set-full (at sets i), decode_sets_from-IsFull sets left (i + 1))

decode_response-IsFull : (root : Json) → All IsFull (decode_response root).sets
unfolding decode_response decode_sets
decode_response-IsFull root = elim (Bool-cases (get_bool (some root) (codes "success") false)) [
  | inl e ↦ rw e (decode_sets_from-IsFull sets (count_of sets) 0)
  | inr e ↦ rw e tt
]
  where
    sets : Option Json
    sets = get (some root) (codes "resultSets")

receive-full :
    (dbc : Dbc) (status : ℕ) (body : Bytes) (root : Option Json)
    → FullPosted (receive dbc status body root).0
unfolding receive FullPosted
receive-full dbc status body none = tt
receive-full dbc status body (some root) =
    elim (Bool-cases (is_gone (is_some dbc.session_id) status root)) [
      | inl e ↦ rw e tt
      | inr e ↦ rw e (decode_response-IsFull root)
    ]

take_answer-full : (dbc : Dbc) (a : Answer) → FullPosted (take_answer dbc a).0
unfolding take_answer FullPosted
take_answer-full dbc (failed message) = tt
take_answer-full dbc (answered status body) = receive-full dbc status _ _

module _ (server : Server) where
  post-full :
      (dbc : Dbc) (sql : Bytes) (count : Option ℕ) (w : World server)
      → FullPosted (post server dbc sql count w).0
  unfolding post
  post-full dbc sql count w = take_answer-full dbc _

  after_post-full :
      (on_gone : Dbc → World server → Run server) (tracked : Bool) (sql : Bytes)
      (p : Posted × Dbc × World server)
      → ((dbc : Dbc) (w : World server) → FullAnswer (on_gone dbc w).0)
      → FullPosted p.0
      → FullAnswer (after_post server on_gone tracked sql p).0
  unfolding after_post FullAnswer FullPosted
  after_post-full on_gone tracked sql (gone, dbc, w) g h = g dbc w
  after_post-full on_gone tracked sql (broken what, dbc, w) g h = tt
  after_post-full on_gone tracked sql (responded r, dbc, w) g h = h

  after_scope-full :
      (next : Dbc → World server → Run server) (s : ScopeRun server)
      → ((dbc : Dbc) (w : World server) → FullAnswer (next dbc w).0)
      → FullAnswer (after_scope server next s).0
  unfolding after_scope FullAnswer refused_response
  after_scope-full next (applied, dbc, w) n = n dbc w
  after_scope-full next (refused message, dbc, w) n = tt
  after_scope-full next (scope_lost what, dbc, w) n = tt

  lost_again-full : (dbc : Dbc) (w : World server) → FullAnswer (lost_again server dbc w).0
  unfolding lost_again FullAnswer
  lost_again-full dbc w = tt

  resend-full :
      (sql : Bytes) (count : Option ℕ) (tracked : Bool) (l : Dbc × Option Lost) (w : World server)
      → FullAnswer (resend server sql count tracked l w).0
  unfolding resend FullAnswer
  resend-full sql count tracked (dbc, some what) w = tt
  resend-full sql count tracked (dbc, none) w =
      after_scope-full _ _
        (λ d v. after_post-full _ tracked sql _ lost_again-full (post-full d sql count v))

  recover-full :
      (recovers : Bool) (sql : Bytes) (count : Option ℕ) (tracked : Bool) (dbc : Dbc)
      (w : World server)
      → FullAnswer (recover server recovers sql count tracked dbc w).0
  unfolding recover
  recover-full false sql count tracked dbc w = lost_again-full dbc w
  recover-full true sql count tracked dbc w = resend-full sql count tracked (lose_session dbc) w

  send_statement-full :
      (tracked recovers : Bool) (sql : Bytes) (count : Option ℕ) (dbc : Dbc) (w : World server)
      → FullAnswer (send_statement server tracked recovers sql count dbc w).0
  unfolding send_statement
  send_statement-full tracked recovers sql count dbc w =
      after_post-full _ tracked sql _ (recover-full recovers sql count tracked)
        (post-full dbc sql count w)

  either-full :
      (b : Bool) (x y : Run server)
      → FullAnswer x.0
      → FullAnswer y.0
      → FullAnswer (if b then x else y).0
  either-full true x y p q = p
  either-full false x y p q = q

  pub execute_as-full :
      (tracked recovers : Bool) (sql : Bytes) (count : Option ℕ) (dbc : Dbc) (w : World server)
      → FullAnswer (execute_as server tracked recovers sql count dbc w).0
  unfolding execute_as
  execute_as-full tracked recovers sql count dbc w =
      either-full dbc.scope_pending _ _
        (after_scope-full (send_statement server tracked recovers sql count)
          (apply_scope server dbc w) (send_statement-full tracked recovers sql count))
        (send_statement-full tracked recovers sql count dbc w)
