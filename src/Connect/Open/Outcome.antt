-- ===== src/Connect/Open/Outcome.antt =====
-- How the opening of a connection in src/connect.c can end.
use frostlake_odbc.Base.{
  ℕ, Bool, true, false, ◌≡◌, ◌≢◌, refl, sym, ap, ◌∙◌, arith, Option, none, some, [], ◌∷◌, Bytes,
  codes, if◌then◌else◌,
}
use frostlake_odbc.Base.Int.{ℤ}
use frostlake_odbc.Sql.Ident.{append_ident}
use frostlake_odbc.Dbc.{Dbc}
use frostlake_odbc.Results.Convert.Model.{success, no_more, with_info, failed}
use frostlake_odbc.Proto.Server.{Server, Answer}
use frostlake_odbc.Proto.Post.{World}
use frostlake_odbc.Proto.Execute.{answer, failure, Run, execute_as}
use frostlake_odbc.Proto.Execute.Frame.{login, login-execute_as}
use frostlake_odbc.Proto.Release.{release}
use frostlake_odbc.Statement.State.{error}
use frostlake_odbc.Connect.Open.{
  named, with_database, with_schema, closed, Opened, give_up, judge, after_use, send_use, built,
  set_commit, use_schema, use_database,
}

-- Connected to a host.
pub record IsLive (dbc : Dbc) : Type 0 where
  pub is_connected : dbc.connected ≡ true
  pub has_host : dbc.host ≢ none

-- Not connected, and no session is kept.
pub record IsIdle (dbc : Dbc) : Type 0 where
  pub not_connected : dbc.connected ≡ false
  pub no_session : dbc.session_id ≡ none

append_ident-some : (verb name : Bytes) → name ≢ [] → append_ident verb name ≢ none
unfolding append_ident
append_ident-some verb [] e = absurd (e refl)
append_ident-some verb (c ∷ name) e = λ k. ground (arith, k)

-- A name that is there is not empty.
abbrev pub NotEmpty : Option Bytes → Type 0
NotEmpty name = name ≢ some []

pub named-NotEmpty : (name : Option Bytes) → NotEmpty (named name)
unfolding named
named-NotEmpty none e = ground arith
named-NotEmpty (some []) e = ground arith
named-NotEmpty (some (c ∷ name)) e = ground arith

module _ (server : Server) (health : server.State → Bytes → ℕ → ℤ → Answer × server.State) where
  -- Success and a connection that is open, or an error and one that is not.
  unfoldable pub IsOutcome : Opened server health → Type 0
  IsOutcome (success, dbc, w) = IsLive dbc
  IsOutcome (failed d, dbc, w) = IsIdle dbc
  IsOutcome (no_more, dbc, w) = ⊥
  IsOutcome (with_info d, dbc, w) = ⊥

  abbrev Next : Type 0
  Next = Dbc → World server → Opened server health

  abbrev Continues : Next → Type 0
  Continues next = (dbc : Dbc) (w : World server) → IsLive dbc → IsOutcome (next dbc w)

  pub IsLive-execute_as :
      (tracked recovers : Bool) (sql : Bytes) (dbc : Dbc) (w : World server)
      → IsLive dbc
      → IsLive (execute_as server tracked recovers sql none dbc w).1
  IsLive-execute_as tracked recovers sql dbc w h = record {
    is_connected = ap (λ l. l.connected) same ∙ h.is_connected;
    has_host = λ e. h.has_host (sym (ap (λ l. l.host) same) ∙ e);
  }
    where
      same : login (execute_as server tracked recovers sql none dbc w).1 ≡ login dbc
      same = login-execute_as server tracked recovers sql none dbc w

  give_up-IsOutcome :
      (state text : Bytes) (dbc : Dbc) (w : World server)
      → IsOutcome (give_up server health (error state text) dbc w)
  unfolding IsOutcome give_up error release closed
  give_up-IsOutcome state text dbc w = record { not_connected = refl; no_session = refl }

  judge-IsOutcome :
      (refused : Bytes) (next : Next) (message : Option Bytes) (dbc : Dbc) (w : World server)
      → Continues next
      → IsLive dbc
      → IsOutcome (judge server health refused next message dbc w)
  unfolding judge
  judge-IsOutcome refused next none dbc w n h = n dbc w h
  judge-IsOutcome refused next (some message) dbc w n h = give_up-IsOutcome refused message dbc w

  after_use-IsOutcome :
      (unanswered refused : Bytes) (next : Next) (run : Run server)
      → Continues next
      → IsLive run.1
      → IsOutcome (after_use server health unanswered refused next run)
  unfolding after_use
  after_use-IsOutcome unanswered refused next (failure what, dbc, w) n h =
      give_up-IsOutcome unanswered _ dbc w
  after_use-IsOutcome unanswered refused next (answer r, dbc, w) n h =
      judge-IsOutcome refused next r.error_message dbc w n h

  send_use-IsOutcome :
      (unanswered refused : Bytes) (next : Next) (sql : Bytes) (dbc : Dbc) (w : World server)
      → Continues next
      → IsLive dbc
      → IsOutcome (send_use server health unanswered refused next sql dbc w)
  unfolding send_use
  send_use-IsOutcome unanswered refused next sql dbc w n h =
      after_use-IsOutcome unanswered refused next _ n (IsLive-execute_as false false sql dbc w h)

  success-IsOutcome : (dbc : Dbc) (w : World server) → IsLive dbc → IsOutcome (success, dbc, w)
  unfolding IsOutcome
  success-IsOutcome dbc w h = h

  set_commit-IsOutcome : Continues (set_commit server health)
  unfolding set_commit
  set_commit-IsOutcome dbc w h = choose dbc.autocommit
    where
      choose :
          (b : Bool)
          → IsOutcome (
              if b
              then (success, dbc, w)
              else send_use server health
                  (codes "08001")
                  (codes "08004")
                  (λ dbc' w'. (success, dbc', w'))
                  (codes "ALTER SESSION SET AUTOCOMMIT = FALSE")
                  dbc
                  w)
      choose true = success-IsOutcome dbc w h
      choose false =
          send_use-IsOutcome (codes "08001") (codes "08004") _ _ dbc w success-IsOutcome h

  built-IsOutcome :
      (unanswered refused : Bytes) (next : Next) (sql : Option Bytes) (dbc : Dbc) (w : World server)
      → sql ≢ none
      → Continues next
      → IsLive dbc
      → IsOutcome (built server health unanswered refused next sql dbc w)
  unfolding built
  built-IsOutcome unanswered refused next none dbc w e n h = absurd (e refl)
  built-IsOutcome unanswered refused next (some sql) dbc w e n h =
      send_use-IsOutcome unanswered refused next sql dbc w n h

  use_schema-IsOutcome :
      (schema : Option Bytes) → NotEmpty schema → Continues (use_schema server health schema)
  unfolding use_schema with_schema
  use_schema-IsOutcome none e dbc w h = set_commit-IsOutcome dbc w h
  use_schema-IsOutcome (some name) e dbc w h =
      built-IsOutcome (codes "08004") (codes "08004") _ _ dbc w
        (append_ident-some (codes "USE SCHEMA ") name (λ k. e (ap some k)))
        (λ dbc' w' h'.
          set_commit-IsOutcome _ w'
            (record { is_connected = h'.is_connected; has_host = h'.has_host }))
        h

  pub use_database-IsOutcome :
      (database schema : Option Bytes)
      → NotEmpty database
      → NotEmpty schema
      → Continues (use_database server health database schema)
  unfolding use_database with_database
  use_database-IsOutcome none schema d e dbc w h = use_schema-IsOutcome schema e dbc w h
  use_database-IsOutcome (some name) schema d e dbc w h =
      built-IsOutcome (codes "08001") (codes "08004") _ _ dbc w
        (append_ident-some (codes "USE DATABASE ") name (λ k. d (ap some k)))
        (λ dbc' w' h'.
          use_schema-IsOutcome schema e _ w'
            (record { is_connected = h'.is_connected; has_host = h'.has_host }))
        h
