-- ===== src/Proto/Scope.antt =====
-- `apply_scope` and `scope_failed` of src/proto.c.
use frostlake_odbc.Base.{
  false, Option, none, some, List, [], ◌∷◌, ◌++◌, if◌then◌else◌, Bytes, codes,
}
use frostlake_odbc.Dbc.{Dbc}
use frostlake_odbc.Sql.Ident.{append_ident}
use frostlake_odbc.Proto.Server.{Server}
use frostlake_odbc.Proto.Lifecycle.{Lost, again, forget_session, lose_session}
use frostlake_odbc.Proto.Post.{Failure, lost, Posted, responded, gone, broken, World, post}

-- One statement of the scope, for a name that is there and not empty. The buffer is the one that
-- `append_ident` answers; it fails for no such name.
unfoldable pub use_statement : Bytes → Option Bytes → List Bytes
use_statement verb none = []
use_statement verb (some name) = elim (append_ident verb name) [ some sql ↦ sql ∷ [] | none ↦ [] ]

unfoldable pub scope_statements : Dbc → List Bytes
scope_statements dbc =
    use_statement (codes "USE DATABASE ") dbc.scope_database
    ++ (use_statement (codes "USE SCHEMA ") dbc.scope_schema
        ++ (if dbc.autocommit then [] else codes "ALTER SESSION SET AUTOCOMMIT = FALSE" ∷ []))

-- 0, or -1 with the engine's refusal, or with *transport_error set.
pub data ScopeResult : Type 0 where
  applied : ScopeResult
  refused : Bytes → ScopeResult
  scope_lost : Failure → ScopeResult

module _ (server : Server) where
  abbrev pub ScopeRun : Type 0
  ScopeRun = ScopeResult × Dbc × World server

  -- What one answer does in the loop: `on_gone` for a lost session, `next` after a success.
  unfoldable pub scope_step :
      (Dbc → World server → ScopeRun)
      → (Dbc → World server → ScopeRun)
      → Posted × Dbc × World server
      → ScopeRun
  scope_step on_gone next (gone, dbc, w) = on_gone dbc w
  scope_step on_gone next (broken failure, dbc, w) = (scope_lost failure, dbc, w)
  scope_step on_gone next (responded response, dbc, w) = elim response.error_message [
    | some message ↦ (refused message, dbc, w)
    | none ↦ next dbc w
  ]

  -- One pass of the loop over the statements that are left.
  unfoldable pub scope_pass :
      (Dbc → World server → ScopeRun) → List Bytes → Dbc → World server → ScopeRun
  scope_pass on_gone [] dbc w = (applied, record dbc { scope_pending = false }, w)
  scope_pass on_gone (sql ∷ rest) dbc w =
      scope_step on_gone (λ dbc' w'. scope_pass on_gone rest dbc' w') (post server dbc sql none w)

  -- A session lost again, after the restart.
  unfoldable pub scope_lost_again : Dbc → World server → ScopeRun
  scope_lost_again dbc w = (scope_lost (lost again), forget_session dbc, w)

  unfoldable pub scope_restart : List Bytes → Dbc × Option Lost → World server → ScopeRun
  scope_restart statements (dbc, some what) w = (scope_lost (lost what), dbc, w)
  scope_restart statements (dbc, none) w = scope_pass scope_lost_again statements dbc w

  unfoldable pub apply_scope : Dbc → World server → ScopeRun
  apply_scope dbc w =
      let statements = scope_statements dbc in
      scope_pass (λ dbc' w'. scope_restart statements (lose_session dbc') w') statements dbc w
