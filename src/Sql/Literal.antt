-- ===== src/Sql/Literal.antt =====
-- The literals of src/execute.c: `append_string_literal`, `append_binary_literal`,
-- `is_numeric_literal` and `append_number`. A value with an explicit length is its list of bytes.
pub mod Closed
pub mod Numeric
use frostlake_odbc.Base.{
  ℕ, zero, suc, ◌+◌, ◌-◌, ◌/◌, ◌%◌, Bool, true, false, ◌&&◌, ◌||◌, not, [], ◌∷◌, ◌++◌, ◌==◌, ltb,
  if◌then◌else◌, Bytes, codes, peek,
}
use frostlake_odbc.Sql.Scanner.{is_digit, drop_one}

-- What the loop appends for one byte.
unfoldable pub literal_byte : ℕ → Bytes
literal_byte c =
    if c == b'\'' then b'\'' ∷ c ∷ [] else if c == b'\\' then b'\\' ∷ c ∷ [] else c ∷ []

unfoldable pub literal_body : Bytes → Bytes
literal_body [] = []
literal_body (c ∷ s) = literal_byte c ++ literal_body s

unfoldable pub append_string_literal : Bytes → Bytes → Bytes
append_string_literal buf text = buf ++ (b'\'' ∷ (literal_body text ++ (b'\'' ∷ [])))

-- "0123456789ABCDEF"[n]
unfoldable pub upper_hex : ℕ → ℕ
upper_hex n = if ltb n 10 then b'0' + n else b'A' + (n - 10)

unfoldable pub binary_body : Bytes → Bytes
binary_body [] = []
binary_body (c ∷ s) = upper_hex (c / 16) ∷ upper_hex (c % 16) ∷ binary_body s

unfoldable pub append_binary_literal : Bytes → Bytes → Bytes
append_binary_literal buf bytes = buf ++ (b'X' ∷ b'\'' ∷ (binary_body bytes ++ (b'\'' ∷ [])))

unfoldable pub is_blank : ℕ → Bool
is_blank c = c == b' ' || c == b'\t'

unfoldable pub skip_blanks : Bytes → Bytes
skip_blanks [] = []
skip_blanks (c ∷ s) = if is_blank c then skip_blanks s else c ∷ s

-- The text is blank to its end.
unfoldable pub all_blank : Bytes → Bool
all_blank [] = true
all_blank (c ∷ s) = is_blank c && all_blank s

-- `while (end > i && blank(text[end - 1])) end--;`
unfoldable pub trim_end : Bytes → Bytes
trim_end [] = []
trim_end (c ∷ s) = if all_blank (c ∷ s) then [] else c ∷ trim_end s

-- A run of digits: how many, and what stands behind.
unfoldable pub digits : ℕ → Bytes → ℕ × Bytes
digits n [] = (n, [])
digits n (c ∷ s) = let more = digits (n + 1) s in if is_digit c then more else (n, c ∷ s)

unfoldable pub skip_sign : Bytes → Bytes
skip_sign [] = []
skip_sign (c ∷ s) = if c == b'+' || c == b'-' then s else c ∷ s

abbrev pub is_empty : Bytes → Bool
is_empty [] = true
is_empty (c ∷ s) = false

-- At least one digit, and nothing behind.
unfoldable pub exponent_digits : ℕ × Bytes → Bool
exponent_digits (n, s) = not (n == 0) && is_empty s

-- The exponent, if there is one, and the end.
unfoldable pub exponent : Bytes → Bool
exponent [] = true
exponent (c ∷ s) =
    if c == b'e' || c == b'E' then exponent_digits (digits 0 (skip_sign s)) else false

-- Digits on either side of the point are counted together.
unfoldable pub after_mantissa : ℕ × Bytes → Bool
after_mantissa (n, s) = not (n == 0) && exponent s

unfoldable pub after_integer : ℕ × Bytes → Bool
after_integer (n, s) = after_mantissa (if peek s == b'.' then digits n (drop_one s) else (n, s))

unfoldable pub is_numeric_literal : Bytes → Bool
is_numeric_literal text =
    let trimmed = trim_end (skip_blanks text) in
    not (is_empty trimmed) && after_integer (digits 0 (skip_sign trimmed))

-- A number's text goes in parentheses when its first character behind blanks is a minus.
unfoldable pub append_number : Bytes → Bytes → Bytes
append_number buf text =
    if peek (skip_blanks text) == b'-' then buf ++ (b'(' ∷ (text ++ (b')' ∷ []))) else buf ++ text
