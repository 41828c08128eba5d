-- ===== src/Proto/Execute/Bounds.antt =====
-- How many requests one execution of src/proto.c may send.
use frostlake_odbc.Base.{
  ℕ, ◌+◌, ◌≤◌, Bool, true, false, Option, none, some, List, [], ◌∷◌, ◌++◌, Bytes, length,
  length-append, arith, if◌then◌else◌, codes,
}
use frostlake_odbc.Dbc.{Dbc}
use frostlake_odbc.Proto.Server.{Server}
use frostlake_odbc.Proto.Lifecycle.{Lost, lose_session}
use frostlake_odbc.Proto.Post.{Posted, responded, gone, broken, World, post, send}
use frostlake_odbc.Proto.Scope.{
  use_statement, scope_statements, applied, refused, scope_lost, ScopeRun, scope_step, scope_pass,
  scope_lost_again, scope_restart, apply_scope,
}
use frostlake_odbc.Proto.Execute.{
  Run, after_scope, after_post, lost_again, resend, recover, send_statement, execute_as,
}

length-use_statement : (verb : Bytes) (name : Option Bytes) → length (use_statement verb name) ≤ 1
unfolding use_statement
length-use_statement verb none = omega arith
length-use_statement verb (some name) = ground arith

length-scope_statements : (dbc : Dbc) → length (scope_statements dbc) ≤ 3
unfolding scope_statements
length-scope_statements dbc =
    bound (use_statement (codes "USE DATABASE ") dbc.scope_database)
      (use_statement (codes "USE SCHEMA ") dbc.scope_schema) dbc.autocommit
      (length-use_statement (codes "USE DATABASE ") dbc.scope_database)
      (length-use_statement (codes "USE SCHEMA ") dbc.scope_schema)
  where
    last : Bool → List Bytes
    last b = if b then [] else codes "ALTER SESSION SET AUTOCOMMIT = FALSE" ∷ []

    bound :
        (xs ys : List Bytes) (b : Bool)
        → length xs ≤ 1
        → length ys ≤ 1
        → length (xs ++ (ys ++ last b)) ≤ 3
    bound xs ys true h k = omega (arith, h, k, length-append xs (ys ++ []), length-append ys [])
    bound xs ys false h k =
        omega (arith, h, k, length-append xs (ys ++ last false), length-append ys (last false))

module _ (server : Server) where
  -- The number of requests sent so far.
  abbrev pub sent_count : World server → ℕ
  sent_count w = length w.posted

  sent_count-post :
      (dbc : Dbc) (sql : Bytes) (count : Option ℕ) (w : World server)
      → sent_count (post server dbc sql count w).2 ≤ sent_count w + 1
  unfolding post send
  sent_count-post dbc sql count w = omega arith

  step-within :
      (n limit : ℕ) (on_gone next : Dbc → World server → ScopeRun server)
      (p : Posted × Dbc × World server)
      → ((d : Dbc) (v : World server) → sent_count v ≤ n + 1 → sent_count (on_gone d v).2 ≤ limit)
      → ((d : Dbc) (v : World server) → sent_count v ≤ n + 1 → sent_count (next d v).2 ≤ limit)
      → sent_count p.2 ≤ n + 1
      → n + 1 ≤ limit
      → sent_count (scope_step server on_gone next p).2 ≤ limit
  unfolding scope_step
  step-within n limit on_gone next (gone, dbc, w) g k h l = g dbc w h
  step-within n limit on_gone next (broken what, dbc, w) g k h l = omega arith
  step-within n limit on_gone next (responded r, dbc, w) g k h l = go r.error_message
    where
      go :
          (e : Option Bytes)
          → sent_count
              (elim e as (λ _. ScopeRun server) [
                | some message ↦ (refused message, dbc, w)
                | none ↦ next dbc w
              ]).2
            ≤ limit
      go none = k dbc w h
      go (some message) = omega arith

  scope_pass-within :
      (extra : ℕ) (on_gone : Dbc → World server → ScopeRun server)
      → ((d : Dbc) (v : World server) → sent_count (on_gone d v).2 ≤ sent_count v + extra)
      → (statements : List Bytes) (dbc : Dbc) (w : World server)
      → sent_count (scope_pass server on_gone statements dbc w).2
        ≤ sent_count w + length statements + extra
  unfolding scope_pass
  scope_pass-within extra on_gone g [] dbc w = omega arith
  scope_pass-within extra on_gone g (sql ∷ rest) dbc w =
      step-within (sent_count w) _ on_gone _ _ (λ d v h. omega (arith, g d v, h))
        (λ d v h. omega (arith, scope_pass-within extra on_gone g rest d v, h))
        (sent_count-post dbc sql none w) (omega arith)

  weaken : {a b c : ℕ} → a ≤ b → b ≤ c → a ≤ c
  weaken h k = omega arith

  scope_restart-within :
      (statements : List Bytes) (l : Dbc × Option Lost) (w : World server)
      → sent_count (scope_restart server statements l w).2 ≤ sent_count w + length statements
  unfolding scope_restart scope_lost_again
  scope_restart-within statements (dbc, some what) w = omega arith
  scope_restart-within statements (dbc, none) w =
      omega
        (arith, scope_pass-within 0 (scope_lost_again server) (λ d v. omega arith) statements dbc w)

  -- Putting the scope on a session sends six requests at most.
  pub sent_count-apply_scope :
      (dbc : Dbc) (w : World server) → sent_count (apply_scope server dbc w).2 ≤ sent_count w + 6
  unfolding apply_scope
  sent_count-apply_scope dbc w =
      weaken
        (scope_pass-within (length (scope_statements dbc)) _
          (λ d v. scope_restart-within (scope_statements dbc) (lose_session d) v)
          (scope_statements dbc) dbc w)
        (omega (arith, length-scope_statements dbc))

  after_scope-within :
      (extra limit : ℕ) (next : Dbc → World server → Run server) (s : ScopeRun server)
      → ((d : Dbc) (v : World server) → sent_count (next d v).2 ≤ sent_count v + extra)
      → sent_count s.2 ≤ limit
      → sent_count (after_scope server next s).2 ≤ limit + extra
  unfolding after_scope
  after_scope-within extra limit next (applied, dbc, w) k h = omega (arith, k dbc w)
  after_scope-within extra limit next (refused message, dbc, w) k h = omega arith
  after_scope-within extra limit next (scope_lost what, dbc, w) k h = omega arith

  after_post-within :
      (extra limit : ℕ) (on_gone : Dbc → World server → Run server) (tracked : Bool) (sql : Bytes)
      (p : Posted × Dbc × World server)
      → ((d : Dbc) (v : World server) → sent_count (on_gone d v).2 ≤ sent_count v + extra)
      → sent_count p.2 ≤ limit
      → sent_count (after_post server on_gone tracked sql p).2 ≤ limit + extra
  unfolding after_post
  after_post-within extra limit on_gone tracked sql (gone, dbc, w) k h = omega (arith, k dbc w)
  after_post-within extra limit on_gone tracked sql (broken what, dbc, w) k h = omega arith
  after_post-within extra limit on_gone tracked sql (responded r, dbc, w) k h = omega arith

  resend-within :
      (sql : Bytes) (count : Option ℕ) (tracked : Bool) (l : Dbc × Option Lost) (w : World server)
      → sent_count (resend server sql count tracked l w).2 ≤ sent_count w + 7
  unfolding resend lost_again
  resend-within sql count tracked (dbc, some what) w = omega arith
  resend-within sql count tracked (dbc, none) w =
      weaken
        (after_scope-within 1 (sent_count w + 6) _ _
          (λ d v.
            weaken
              (after_post-within 0 (sent_count v + 1) (lost_again server) tracked sql _
                (λ d' v'. omega arith) (sent_count-post d sql count v))
              (omega arith))
          (sent_count-apply_scope dbc w))
        (omega arith)

  recover-within :
      (recovers : Bool) (sql : Bytes) (count : Option ℕ) (tracked : Bool) (dbc : Dbc)
      (w : World server)
      → sent_count (recover server recovers sql count tracked dbc w).2 ≤ sent_count w + 7
  unfolding recover lost_again
  recover-within false sql count tracked dbc w = omega arith
  recover-within true sql count tracked dbc w = resend-within sql count tracked (lose_session dbc) w

  send_statement-within :
      (tracked recovers : Bool) (sql : Bytes) (count : Option ℕ) (dbc : Dbc) (w : World server)
      → sent_count (send_statement server tracked recovers sql count dbc w).2 ≤ sent_count w + 8
  unfolding send_statement
  send_statement-within tracked recovers sql count dbc w =
      weaken
        (after_post-within 7 (sent_count w + 1) _ tracked sql _
          (λ d v. recover-within recovers sql count tracked d v) (sent_count-post dbc sql count w))
        (omega arith)

  if-within :
      (limit : ℕ) (b : Bool) (x y : Run server)
      → sent_count x.2 ≤ limit
      → sent_count y.2 ≤ limit
      → sent_count (if b then x else y).2 ≤ limit
  if-within limit true x y h k = h
  if-within limit false x y h k = k

  -- Whatever the server answers, one execution sends fourteen requests at most: the scope's three
  -- statements four times over, and the statement itself twice.
  pub sent_count-execute_as :
      (tracked recovers : Bool) (sql : Bytes) (count : Option ℕ) (dbc : Dbc) (w : World server)
      → sent_count (execute_as server tracked recovers sql count dbc w).2 ≤ sent_count w + 14
  unfolding execute_as
  sent_count-execute_as tracked recovers sql count dbc w =
      if-within _ dbc.scope_pending _ _
        (weaken
          (after_scope-within 8 (sent_count w + 6) _ _
            (λ d v. send_statement-within tracked recovers sql count d v)
            (sent_count-apply_scope dbc w))
          (omega arith))
        (weaken (send_statement-within tracked recovers sql count dbc w) (omega arith))
