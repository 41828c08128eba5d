-- ===== src/Sql/Scanner.antt =====
-- The scanner of src/execute.c, `skip_non_placeholder` (`fl_sql_skip`), and `count_placeholders`.
-- A position is the rest of the text; `none` is NULL.
pub mod Progress
use frostlake_odbc.Base.{
  ℕ, zero, suc, ◌+◌, Bool, ◌&&◌, not, ◌||◌, Option, none, some, [], ◌∷◌, ◌==◌, leb, if◌then◌else◌,
  Bytes, length, peek,
}

unfoldable pub is_upper : ℕ → Bool
is_upper c = leb b'A' c && leb c b'Z'

unfoldable pub is_lower : ℕ → Bool
is_lower c = leb b'a' c && leb c b'z'

unfoldable pub is_digit : ℕ → Bool
is_digit c = leb b'0' c && leb c b'9'

unfoldable pub is_name_start : ℕ → Bool
unfolding is_upper is_lower
is_name_start c = is_upper c || is_lower c || c == b'_'

unfoldable pub is_name_char : ℕ → Bool
unfolding is_upper is_lower is_digit
is_name_char c = is_upper c || is_lower c || is_digit c || c == b'_' || c == b'$'

unfoldable pub name_rest : Bytes → Bytes
name_rest [] = []
name_rest (c ∷ s) = if is_name_char c then name_rest s else c ∷ s

-- Inside '…': a backslash takes the next character with it, and '' is a quote. The scan stops in
-- front of a NUL, which the text of a literal may hold.
unfoldable pub single_quoted : Bytes → Bytes
single_quoted [] = []
single_quoted (c ∷ []) = if c == 0 then c ∷ [] else []
single_quoted (c ∷ d ∷ s) =
    let past_pair = single_quoted s in
    let past_one = single_quoted (d ∷ s) in
    if c == 0
    then c ∷ d ∷ s
    else if c == b'\\' && not (d == 0)
    then past_pair
    else if c == b'\''
    then (if d == b'\'' then past_pair else d ∷ s)
    else past_one

-- Inside "…": only "" is special.
unfoldable pub double_quoted : Bytes → Bytes
double_quoted [] = []
double_quoted (c ∷ []) = []
double_quoted (c ∷ d ∷ s) =
    let past_pair = double_quoted s in
    let past_one = double_quoted (d ∷ s) in
    if c == b'"' then (if d == b'"' then past_pair else d ∷ s) else past_one

unfoldable pub is_line_end : ℕ → Bool
is_line_end c = c == b'\r' || c == b'\n'

-- Past the first line feed or carriage return.
unfoldable pub line_comment : Bytes → Bytes
line_comment [] = []
line_comment (c ∷ s) = if is_line_end c then s else line_comment s

-- Past the first place where `a` and `b` stand together (`strstr`), or the end.
unfoldable pub past_mark : ℕ → ℕ → Bytes → Bytes
past_mark a b [] = []
past_mark a b (c ∷ []) = []
past_mark a b (c ∷ d ∷ s) =
    let later = past_mark a b (d ∷ s) in if c == a && d == b then s else later

abbrev pub drop_one : Bytes → Bytes
drop_one [] = []
drop_one (c ∷ s) = s

-- The tests on the first two characters; `d` is NUL where the text ends.
unfoldable pub skip_opening : ℕ → ℕ → Bytes → Option Bytes
skip_opening c d s =
    if is_name_start c
    then some (name_rest s)
    else if c == b'\''
    then some (single_quoted s)
    else if c == b'"'
    then some (double_quoted s)
    else if (c == b'-' && d == b'-') || (c == b'/' && d == b'/')
    then some (line_comment (drop_one s))
    else if c == b'/' && d == b'*'
    then some (past_mark b'*' b'/' (drop_one s))
    else if c == b'$' && d == b'$'
    then some (past_mark b'$' b'$' (drop_one s))
    else none

unfoldable pub skip : Bytes → Option Bytes
skip [] = none
skip (c ∷ s) = skip_opening c (peek s) s

-- `count_placeholders` from inside its loop, on fuel: each round moves forward.
unfoldable pub count_loop : ℕ → ℕ → Bytes → ℕ
count_loop zero count s = count
count_loop (suc fuel) count [] = count
count_loop (suc fuel) count (c ∷ s) = elim (skip (c ∷ s)) [
  | some past ↦ count_loop fuel count past
  | none ↦ count_loop fuel (if c == b'?' then count + 1 else count) s
]

unfoldable pub count_placeholders : Bytes → ℕ
count_placeholders sql = count_loop (length sql) 0 sql
