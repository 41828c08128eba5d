-- ===== src/Proto/Execute/Keeps.antt =====
-- The rule for properties of a connection through an execution of src/proto.c: each piece of the
-- bookkeeping, then the recovery that is made of them.
use frostlake_odbc.Base.{
  Bool, true, false, ◌≡◌, Option, none, some, List, [], ◌∷◌, ℕ, Bytes, Bool-cases, inl, inr,
  if◌then◌else◌,
}
use frostlake_odbc.Json.Value.{Json}
use frostlake_odbc.Dbc.{Dbc}
use frostlake_odbc.Session.Note.{session_note}
use frostlake_odbc.Proto.Server.{Server}
use frostlake_odbc.Proto.Lifecycle.{Lost, forget_session, lose_session, absorb_session}
use frostlake_odbc.Proto.Post.{Posted, responded, gone, broken, World}
use frostlake_odbc.Proto.Post.Keeps.{post-keeps}
use frostlake_odbc.Proto.Scope.{
  applied, refused, scope_lost, ScopeRun, scope_step, scope_pass, scope_lost_again, scope_restart,
  scope_statements, apply_scope,
}
use frostlake_odbc.Proto.Execute.{
  Run, note_success, after_scope, after_post, lost_again, resend, recover, send_statement,
  execute_as,
}

pub record Kept (tracked : Bool) (P : Dbc → Type 0) : Type 0 where
  pub absorbed : (dbc : Dbc) (root : Json) (sent : Bool) → P dbc → P (absorb_session dbc root sent)
  pub forgotten : (dbc : Dbc) → P dbc → P (forget_session dbc)
  pub scoped : (dbc : Dbc) → P dbc → P (record dbc { scope_pending = false })
  pub noted : tracked ≡ true → (dbc : Dbc) (sql : Bytes) → P dbc → P (session_note dbc sql)

module _ (server : Server) (tracked : Bool) (P : Dbc → Type 0) (kept : Kept tracked P) where
  scope_step-keeps :
      (on_gone next : Dbc → World server → ScopeRun server) (p : Posted × Dbc × World server)
      → ((dbc : Dbc) (w : World server) → P dbc → P (on_gone dbc w).1)
      → ((dbc : Dbc) (w : World server) → P dbc → P (next dbc w).1)
      → P p.1
      → P (scope_step server on_gone next p).1
  unfolding scope_step
  scope_step-keeps on_gone next (gone, dbc, w) g n h = g dbc w h
  scope_step-keeps on_gone next (broken what, dbc, w) g n h = h
  scope_step-keeps on_gone next (responded r, dbc, w) g n h = go r.error_message
    where
      go :
          (e : Option Bytes)
          → P
              (elim e as (λ _. ScopeRun server) [
                | some message ↦ (refused message, dbc, w)
                | none ↦ next dbc w
              ]).1
      go none = n dbc w h
      go (some message) = h

  scope_pass-keeps :
      (on_gone : Dbc → World server → ScopeRun server) (statements : List Bytes) (dbc : Dbc)
      (w : World server)
      → ((dbc : Dbc) (w : World server) → P dbc → P (on_gone dbc w).1)
      → P dbc
      → P (scope_pass server on_gone statements dbc w).1
  unfolding scope_pass
  scope_pass-keeps on_gone [] dbc w g h = kept.scoped dbc h
  scope_pass-keeps on_gone (sql ∷ rest) dbc w g h =
      scope_step-keeps on_gone _ _ g (λ dbc' w' h'. scope_pass-keeps on_gone rest dbc' w' g h')
        (post-keeps server P kept.absorbed dbc sql none w h)

  scope_restart-keeps :
      (statements : List Bytes) (l : Dbc × Option Lost) (w : World server)
      → P l.0
      → P (scope_restart server statements l w).1
  unfolding scope_restart scope_lost_again
  scope_restart-keeps statements (dbc, some what) w h = h
  scope_restart-keeps statements (dbc, none) w h =
      scope_pass-keeps (scope_lost_again server) statements dbc w (λ d v k. kept.forgotten d k) h

  pub apply_scope-keeps : (dbc : Dbc) (w : World server) → P dbc → P (apply_scope server dbc w).1
  unfolding apply_scope lose_session
  apply_scope-keeps dbc w h =
      scope_pass-keeps _ (scope_statements dbc) dbc w
        (λ d v k.
          scope_restart-keeps (scope_statements dbc) (lose_session d) v (kept.forgotten d k))
        h

  after_scope-keeps :
      (next : Dbc → World server → Run server) (s : ScopeRun server)
      → ((dbc : Dbc) (w : World server) → P dbc → P (next dbc w).1)
      → P s.1
      → P (after_scope server next s).1
  unfolding after_scope
  after_scope-keeps next (applied, dbc, w) n h = n dbc w h
  after_scope-keeps next (refused message, dbc, w) n h = h
  after_scope-keeps next (scope_lost what, dbc, w) n h = h

  note_success-keeps :
      (e : Option Bytes) (sql : Bytes) (dbc : Dbc) → P dbc → P (note_success tracked e sql dbc)
  unfolding note_success
  note_success-keeps (some message) sql dbc h = h
  note_success-keeps none sql dbc h = elim (Bool-cases tracked) [
    | inl e ↦ rw e (kept.noted e dbc sql h)
    | inr e ↦ rw e h
  ]

  after_post-keeps :
      (on_gone : Dbc → World server → Run server) (sql : Bytes) (p : Posted × Dbc × World server)
      → ((dbc : Dbc) (w : World server) → P dbc → P (on_gone dbc w).1)
      → P p.1
      → P (after_post server on_gone tracked sql p).1
  unfolding after_post
  after_post-keeps on_gone sql (gone, dbc, w) g h = g dbc w h
  after_post-keeps on_gone sql (broken what, dbc, w) g h = h
  after_post-keeps on_gone sql (responded r, dbc, w) g h =
      note_success-keeps r.error_message sql dbc h

  resend-keeps :
      (sql : Bytes) (count : Option ℕ) (l : Dbc × Option Lost) (w : World server)
      → P l.0
      → P (resend server sql count tracked l w).1
  unfolding resend lost_again
  resend-keeps sql count (dbc, some what) w h = h
  resend-keeps sql count (dbc, none) w h =
      after_scope-keeps _ _
        (λ d v k.
          after_post-keeps (lost_again server) sql _ (λ d' v' k'. kept.forgotten d' k')
            (post-keeps server P kept.absorbed d sql count v k))
        (apply_scope-keeps dbc w h)

  recover-keeps :
      (recovers : Bool) (sql : Bytes) (count : Option ℕ) (dbc : Dbc) (w : World server)
      → P dbc
      → P (recover server recovers sql count tracked dbc w).1
  unfolding recover lost_again lose_session
  recover-keeps false sql count dbc w h = kept.forgotten dbc h
  recover-keeps true sql count dbc w h =
      resend-keeps sql count (lose_session dbc) w (kept.forgotten dbc h)

  send_statement-keeps :
      (recovers : Bool) (sql : Bytes) (count : Option ℕ) (dbc : Dbc) (w : World server)
      → P dbc
      → P (send_statement server tracked recovers sql count dbc w).1
  unfolding send_statement
  send_statement-keeps recovers sql count dbc w h =
      after_post-keeps _ sql _ (λ d v k. recover-keeps recovers sql count d v k)
        (post-keeps server P kept.absorbed dbc sql count w h)

  if-keeps : (b : Bool) (x y : Run server) → P x.1 → P y.1 → P (if b then x else y).1
  if-keeps true x y p q = p
  if-keeps false x y p q = q

  pub execute_as-keeps :
      (recovers : Bool) (sql : Bytes) (count : Option ℕ) (dbc : Dbc) (w : World server)
      → P dbc
      → P (execute_as server tracked recovers sql count dbc w).1
  unfolding execute_as
  execute_as-keeps recovers sql count dbc w h =
      if-keeps dbc.scope_pending _ _
        (after_scope-keeps _ _ (λ d v k. send_statement-keeps recovers sql count d v k)
          (apply_scope-keeps dbc w h))
        (send_statement-keeps recovers sql count dbc w h)
