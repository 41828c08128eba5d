-- ===== src/Session/Note/Keeps.antt =====
-- The rule for properties of a connection through `fl_session_note` of src/session.c.
use frostlake_odbc.Base.{
  ℕ, zero, suc, Bool, true, false, none, some, List, [], ◌∷◌, ◌==◌, ◌||◌, not, Bytes, length,
  Option,
}
use frostlake_odbc.Dbc.{Dbc}
use frostlake_odbc.Sql.Scanner.{skip}
use frostlake_odbc.Session.Effect.{
  touches_session, Effect, opens, ends, neither, transaction_effect,
}
use frostlake_odbc.Session.Words.{leading_words}
use frostlake_odbc.Session.Note.{note_effect, note_words, note_statement, note_loop, session_note}

-- A property that noting the words of a statement keeps, noting a request keeps.
module _ (P : Dbc → Type 0)
    (words-keep : (words : List Bytes) (dbc : Dbc) → P dbc → P (note_words words dbc)) where
  statement-keeps :
      (dbc : Dbc) (start : Bytes) (behind : ℕ) → P dbc → P (note_statement dbc start behind)
  unfolding note_statement
  statement-keeps dbc start behind h = words-keep (leading_words start behind) dbc h

  -- One round of the loop: what is skipped, and whether the character is a semicolon.
  round-keeps :
      (fuel : ℕ) (dbc : Dbc) (start : Bytes) (c : ℕ) (s : Bytes)
      → ((d : Dbc) (from rest : Bytes) → P d → P (note_loop fuel d from rest))
      → P dbc
      → (past : Option Bytes) (b : Bool)
      → P (elim past as (λ _. Dbc) [
        | some past ↦ note_loop fuel dbc start past
        | none ↦ elim b as (λ _. Dbc) [
          | true ↦ note_loop fuel (note_statement dbc start (length (c ∷ s))) s s
          | false ↦ note_loop fuel dbc start s
        ]
      ])
  round-keeps fuel dbc start c s k h (some past) b = k dbc start past h
  round-keeps fuel dbc start c s k h none true =
      k _ s s (statement-keeps dbc start (length (c ∷ s)) h)
  round-keeps fuel dbc start c s k h none false = k dbc start s h

  loop-keeps : (fuel : ℕ) (dbc : Dbc) (start s : Bytes) → P dbc → P (note_loop fuel dbc start s)
  unfolding note_loop
  loop-keeps zero dbc start s h = h
  loop-keeps (suc fuel) dbc start [] h = statement-keeps dbc start 0 h
  loop-keeps (suc fuel) dbc start (c ∷ s) h =
      round-keeps fuel dbc start c s (λ d from rest. loop-keeps fuel d from rest) h (skip (c ∷ s))
        (c == b';')

  pub session_note-keeps : (dbc : Dbc) (sql : Bytes) → P dbc → P (session_note dbc sql)
  unfolding session_note
  session_note-keeps dbc sql h = loop-keeps (suc (length sql)) dbc sql sql h

-- A property that does not read the two flags is kept by the words of a statement.
pub words-keep :
    (P : Dbc → Type 0)
    → ((dbc : Dbc) (dirty in_txn : Bool)
        → P dbc
        → P (record dbc { session_dirty = dirty; in_transaction = in_txn }))
    → (words : List Bytes) (dbc : Dbc) → P dbc
    → P (note_words words dbc)
unfolding note_words note_effect
words-keep P k [] dbc h = h
words-keep P k (verb ∷ words) dbc h = go (transaction_effect (verb ∷ words))
  where
    dirty : Bool
    dirty = dbc.session_dirty || touches_session (verb ∷ words)

    go : (e : Effect) → P (note_effect e (record dbc { session_dirty = dirty }))
    go opens = k dbc dirty true h
    go ends = k dbc dirty false h
    go neither = k dbc dirty (dbc.in_transaction || not dbc.autocommit) h
