-- ===== src/Session/Note.antt =====
-- `note_statement` and `fl_session_note` of src/session.c.
pub mod Keeps
pub mod Phrases
pub mod Requests
use frostlake_odbc.Base.{
  ℕ, zero, suc, true, false, ◌||◌, not, none, some, List, [], ◌∷◌, ◌==◌, Bytes, length,
}
use frostlake_odbc.Dbc.{Dbc}
use frostlake_odbc.Sql.Scanner.{skip}
use frostlake_odbc.Session.Words.{leading_words}
use frostlake_odbc.Session.Effect.{
  touches_session, Effect, opens, ends, neither, transaction_effect,
}

unfoldable pub note_effect : Effect → Dbc → Dbc
note_effect opens dbc = record dbc { in_transaction = true }
note_effect ends dbc = record dbc { in_transaction = false }
note_effect neither dbc = record dbc { in_transaction = dbc.in_transaction || not dbc.autocommit }

unfoldable pub note_words : List Bytes → Dbc → Dbc
note_words [] dbc = dbc
note_words (verb ∷ words) dbc =
    let touched = record dbc {
      session_dirty = dbc.session_dirty || touches_session (verb ∷ words);
    } in
    note_effect (transaction_effect (verb ∷ words)) touched

-- The statement from `start` up to the point that has `behind` characters behind it.
unfoldable pub note_statement : Dbc → Bytes → ℕ → Dbc
note_statement dbc start behind = note_words (leading_words start behind) dbc

-- The loop of `fl_session_note`: `start` is where the current statement begins, `c` the position.
unfoldable pub note_loop : ℕ → Dbc → Bytes → Bytes → Dbc
note_loop zero dbc start c = dbc
note_loop (suc fuel) dbc start [] = note_statement dbc start 0
note_loop (suc fuel) dbc start (c ∷ s) = elim (skip (c ∷ s)) [
  | some past ↦ note_loop fuel dbc start past
  | none ↦ elim (c == b';') [
    | true ↦ note_loop fuel (note_statement dbc start (length (c ∷ s))) s s
    | false ↦ note_loop fuel dbc start s
  ]
]

unfoldable pub session_note : Dbc → Bytes → Dbc
session_note dbc sql = note_loop (suc (length sql)) dbc sql sql
