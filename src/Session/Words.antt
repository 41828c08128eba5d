-- ===== src/Session/Words.antt =====
-- `leading_words` of src/session.c. The end of a statement is given by how many characters of the
-- whole text stand behind it, since a skipped comment may run past it.
use frostlake_odbc.Base.{
  ℕ, zero, suc, ◌+◌, Bool, ◌&&◌, ◌||◌, none, some, List, [], ◌∷◌, ◌++◌, ◌==◌, ltb, leb,
  if◌then◌else◌, Bytes, length, peek,
}
use frostlake_odbc.Sql.Scanner.{is_upper, is_lower, is_digit, skip}
use frostlake_odbc.Sql.Ident.{to_upper}

abbrev pub word_limit : ℕ
word_limit = 16

abbrev pub word_length : ℕ
word_length = 32

unfoldable pub is_word_char : ℕ → Bool
unfolding is_upper is_lower is_digit
is_word_char c = is_upper c || is_lower c || is_digit c || c == b'_' || c == b'$'

unfoldable pub is_space : ℕ → Bool
is_space c = c == b' ' || c == b'\t' || c == b'\n' || c == b'\r' || c == 12 || c == 11

-- `--`, `//` or `/*` at the front.
unfoldable pub opens_comment : ℕ → ℕ → Bool
opens_comment c d = (c == b'-' && d == b'-') || (c == b'/' && (d == b'/' || d == b'*'))

-- One more character of a word, while there is room for the closing NUL.
unfoldable pub push_char : Bytes → ℕ → Bytes
push_char word c = if ltb (length word + 1) word_length then word ++ (to_upper c ∷ []) else word

unfoldable pub read_word : ℕ → Bytes → Bytes → Bytes × Bytes
read_word behind word [] = (word, [])
read_word behind word (c ∷ s) =
    let more = read_word behind (push_char word c) s in
    if ltb behind (length (c ∷ s)) && is_word_char c then more else (word, c ∷ s)

-- The loop of `leading_words`, on fuel; each round moves forward.
unfoldable pub words_loop : ℕ → ℕ → List Bytes → Bytes → List Bytes
words_loop zero behind words s = words
words_loop (suc fuel) behind words [] = words
words_loop (suc fuel) behind words (c ∷ s) =
    let blank = words_loop fuel behind words s in
    let comment : List Bytes = elim (skip (c ∷ s)) [
      | some past ↦ words_loop fuel behind words past
      | none ↦ words
    ] in
    let word = read_word behind [] (c ∷ s) in
    let more = words_loop fuel behind (words ++ (word.0 ∷ [])) word.1 in
    if leb (length (c ∷ s)) behind || leb word_limit (length words)
    then words
    else if is_space c
    then blank
    else if opens_comment c (peek s)
    then comment
    else if is_word_char c
    then more
    else words

unfoldable pub leading_words : Bytes → ℕ → List Bytes
leading_words s behind = words_loop (length s) behind [] s
