-- ===== src/Session/Note/Requests.antt =====
-- What `fl_session_note` of src/session.c makes of a request of several statements.
use frostlake_odbc.Base.{
  ℕ, zero, suc, Bool, true, false, none, some, List, [], ◌∷◌, ◌==◌, ◌||◌, not, Bytes, length,
  Option, ◌≡◌,
}
use frostlake_odbc.Dbc.{Dbc}
use frostlake_odbc.Sql.Scanner.{skip}
use frostlake_odbc.Session.Effect.{Effect, opens, ends, neither}
use frostlake_odbc.Session.Words.{leading_words}
use frostlake_odbc.Session.Note.Phrases.{sets_context, phrase_effect}

-- The leading words of each statement of a text, in order: a statement ends in front of a semicolon
-- that stands outside of literals, quoted names and comments, or with the text.
unfoldable pub split_step :
    List (List Bytes)
    → List (List Bytes)
    → List (List Bytes)
    → List Bytes
    → Option Bytes
    → Bool
    → List (List Bytes)
split_step behind_skip behind_end behind_char words (some past) b = behind_skip
split_step behind_skip behind_end behind_char words none true = words ∷ behind_end
split_step behind_skip behind_end behind_char words none false = behind_char

unfoldable pub skip_to : Option Bytes → Bytes
skip_to none = []
skip_to (some past) = past

unfoldable pub split_words : ℕ → Bytes → Bytes → List (List Bytes)
split_words zero start s = []
split_words (suc fuel) start [] = leading_words start 0 ∷ []
split_words (suc fuel) start (c ∷ s) =
    split_step (split_words fuel start (skip_to (skip (c ∷ s)))) (split_words fuel s s)
      (split_words fuel start s) (leading_words start (length (c ∷ s))) (skip (c ∷ s)) (c == b';')

unfoldable pub statement_words : Bytes → List (List Bytes)
statement_words sql = split_words (suc (length sql)) sql sql

unfoldable pub any_touches : List (List Bytes) → Bool
any_touches [] = false
any_touches (words ∷ more) = sets_context words || any_touches more

unfoldable pub effect_after : Bool → Bool → Effect → Bool
effect_after autocommit before opens = true
effect_after autocommit before ends = false
effect_after autocommit before neither = before || not autocommit

-- A statement without words changes nothing.
unfoldable pub words_after : Bool → Bool → List Bytes → Bool
words_after autocommit before [] = before
words_after autocommit before (verb ∷ words) =
    effect_after autocommit before (phrase_effect (verb ∷ words))

-- Whether a transaction is open after the statements, in their order.
unfoldable pub open_after : Bool → Bool → List (List Bytes) → Bool
open_after autocommit before [] = before
open_after autocommit before (words ∷ more) =
    open_after autocommit (words_after autocommit before words) more

-- What the two marks and the commit mode are.
unfoldable pub Marks : Dbc → Bool → Bool → Bool → Type 0
Marks dbc dirty in_txn auto =
    (dbc.session_dirty ≡ dirty) × (dbc.in_transaction ≡ in_txn) × (dbc.autocommit ≡ auto)

-- What statements do to a connection.
unfoldable pub Noted : Dbc → Dbc → List (List Bytes) → Type 0
Noted dbc next all =
    Marks next (dbc.session_dirty || any_touches all)
      (open_after dbc.autocommit dbc.in_transaction all) dbc.autocommit
