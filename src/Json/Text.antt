-- ===== src/Json/Text.antt =====
-- The string codec of src/json.c: what `fl_strbuf_append_json_string` writes, and what
-- `parse_string_body` reads back.
pub mod RoundTrip
pub mod Progress
use frostlake_odbc.Base.{
  ℕ, zero, suc, ◌+◌, ◌-◌, ◌*◌, ◌/◌, ◌%◌, Bool, false, ◌&&◌, Option, none, some, [], ◌∷◌, ◌++◌, ltb,
  leb, ◌==◌, if◌then◌else◌, Bytes, length, drop,
}

-- What reading at a position gives: a value and the position behind it, or malformed text. The
-- third case is the model's own, a loop that has used up its fuel.
pub data Parsed {ℓ} (A : Type ℓ) : Type ℓ where
  ok : A → Bytes → Parsed A
  bad : Parsed A
  out_of_fuel : Parsed A

infixl 5 ◌>>=◌
abbrev pub ◌>>=◌ {ℓ κ} : {A : Type ℓ} {B : Type κ} → Parsed A → (A → Bytes → Parsed B) → Parsed B
ok a s >>= f = f a s
bad >>= f = bad
out_of_fuel >>= f = out_of_fuel

-- A digit as `%x` prints it.
unfoldable pub hex_digit : ℕ → ℕ
hex_digit n = if ltb n 10 then b'0' + n else b'a' + (n - 10)

-- What the loop appends for one byte; the last `\u` form is `snprintf("\\u%04x")` below 0x20.
unfoldable pub escape_byte : ℕ → Bytes
escape_byte c =
    if c == b'"'
    then b'\\' ∷ b'"' ∷ []
    else if c == b'\\'
    then b'\\' ∷ b'\\' ∷ []
    else if c == 8
    then b'\\' ∷ b'b' ∷ []
    else if c == 12
    then b'\\' ∷ b'f' ∷ []
    else if c == b'\n'
    then b'\\' ∷ b'n' ∷ []
    else if c == b'\r'
    then b'\\' ∷ b'r' ∷ []
    else if c == b'\t'
    then b'\\' ∷ b't' ∷ []
    else if ltb c 32
    then b'\\' ∷ b'u' ∷ b'0' ∷ b'0' ∷ hex_digit (c / 16) ∷ hex_digit (c % 16) ∷ []
    else c ∷ []

unfoldable pub escape : Bytes → Bytes
escape [] = []
escape (c ∷ s) = escape_byte c ++ escape s

unfoldable pub append_json_string : Bytes → Bytes → Bytes
append_json_string buf text = buf ++ (b'"' ∷ (escape text ++ (b'"' ∷ [])))

-- One code point as UTF-8. The bits that the source joins by `|` do not overlap, so `+` joins them.
unfoldable pub utf8 : ℕ → Bytes
utf8 cp =
    if ltb cp 0x80
    then cp ∷ []
    else if ltb cp 0x800
    then (0xC0 + cp / 64) ∷ (0x80 + cp % 64) ∷ []
    else if ltb cp 0x10000
    then (0xE0 + cp / 4096) ∷ (0x80 + cp / 64 % 64) ∷ (0x80 + cp % 64) ∷ []
    else (0xF0 + cp / 262144)
      ∷ (0x80 + cp / 4096 % 64)
      ∷ (0x80 + cp / 64 % 64)
      ∷ (0x80 + cp % 64)
      ∷ []

unfoldable pub hex_value : ℕ → Option ℕ
hex_value c =
    if leb b'0' c && leb c b'9'
    then some (c - b'0')
    else if leb b'a' c && leb c b'f'
    then some (c - b'a' + 10)
    else if leb b'A' c && leb c b'F'
    then some (c - b'A' + 10)
    else none

-- `value = value << 4 | digit`, where the digit came out.
unfoldable pub shift_in : Option ℕ → Option ℕ → Option ℕ
shift_in (some value) (some digit) = some (value * 16 + digit)
shift_in _ _ = none

unfoldable pub parse_hex4 : Bytes → Parsed ℕ
parse_hex4 (a ∷ b ∷ c ∷ d ∷ s) =
    elim (shift_in (shift_in (shift_in (hex_value a) (hex_value b)) (hex_value c)) (hex_value d)) [
      | some cp ↦ ok cp s
      | none ↦ bad
    ]
parse_hex4 _ = bad

-- One round of the loop of `parse_string_body`: the closing quote, or bytes for the buffer.
pub data Piece : Type 0 where
  closed : Piece
  text : Bytes → Piece

-- The low half is not checked to be one, as in the source.
unfoldable pub surrogate_pair : ℕ → Bytes → Parsed Piece
surrogate_pair high s =
    parse_hex4 s >>= λ low r. ok (text (utf8 (0x10000 + (high - 0xD800) * 1024 + low - 0xDC00))) r

-- A high surrogate with six bytes and `\u` behind it is joined with what follows.
unfoldable pub joins : ℕ → Bytes → Bool
joins cp (a ∷ b ∷ s) = leb 0xD800 cp && leb cp 0xDBFF && leb 4 (length s) && a == b'\\' && b == b'u'
joins cp _ = false

unfoldable pub parse_unicode : Bytes → Parsed Piece
parse_unicode s = parse_hex4 s >>= λ cp r.
    if joins cp r then surrogate_pair cp (drop 2 r) else ok (text (utf8 cp)) r

unfoldable pub parse_escape : Bytes → Parsed Piece
parse_escape [] = bad
parse_escape (esc ∷ s) =
    if esc == b'"'
    then ok (text (b'"' ∷ [])) s
    else if esc == b'\\'
    then ok (text (b'\\' ∷ [])) s
    else if esc == b'/'
    then ok (text (b'/' ∷ [])) s
    else if esc == b'b'
    then ok (text (8 ∷ [])) s
    else if esc == b'f'
    then ok (text (12 ∷ [])) s
    else if esc == b'n'
    then ok (text (b'\n' ∷ [])) s
    else if esc == b'r'
    then ok (text (b'\r' ∷ [])) s
    else if esc == b't'
    then ok (text (b'\t' ∷ [])) s
    else if esc == b'u'
    then parse_unicode s
    else bad

unfoldable pub parse_piece : Bytes → Parsed Piece
parse_piece [] = bad
parse_piece (c ∷ s) =
    if c == b'"' then ok closed s else if c == b'\\' then parse_escape s else ok (text (c ∷ [])) s

-- `parse_string_body` from inside its loop, with what the buffer holds; one round for each byte
-- left is enough fuel.
unfoldable pub parse_body : ℕ → Bytes → Bytes → Parsed Bytes
parse_body zero buf s = out_of_fuel
parse_body (suc fuel) buf s = parse_piece s >>= λ piece r. elim piece [
  | text bytes ↦ parse_body fuel (buf ++ bytes) r
  | closed ↦ ok buf r
]

unfoldable pub parse_string_body : Bytes → Parsed Bytes
parse_string_body s = parse_body (suc (length s)) [] s
