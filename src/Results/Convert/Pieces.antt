-- ===== src/Results/Convert/Pieces.antt =====
-- The cases SQL_C_CHAR and SQL_C_BINARY of `convert_cell` in src/results.c.
use frostlake_odbc.Base.{
  ℕ, zero, suc, ◌+◌, ◌-◌, ◌*◌, ◌/◌, Bool, true, false, ◌&&◌, Option, none, some, [], ◌∷◌, leb, ltb,
  if◌then◌else◌, Bytes, codes, length, take, drop,
}
use frostlake_odbc.Base.Int.{pos}
use frostlake_odbc.Response.Model.{SqlType, varbinary}
use frostlake_odbc.Results.Chunk.{Chunk, no_data, delivered, read_char}
use frostlake_odbc.Results.Convert.Model.{
  failed, Out, Buffer, Conversion, diag_record, when, usable, of_chunk, measure,
}

unfoldable pub convert_char : Buffer → Bytes → ℕ → Conversion
convert_char b text from = elim (usable b.present b.size) [
  | some n ↦ of_chunk b Out.chars (read_char text from (n - 1))
  | none ↦ measure b (length text) from
]

-- The bytes of a column that is not BINARY.
unfoldable pub read_bytes : Bytes → ℕ → ℕ → Chunk
read_bytes text from room =
    let rest = drop from text in
    if ltb (length text) from
    then no_data
    else if ltb room (length rest)
    then delivered (take room rest) (length rest) (from + room) true
    else delivered rest (length rest) (length text + 1) false

unfoldable pub convert_bytes : Buffer → Bytes → ℕ → Conversion
convert_bytes b text from = elim (usable b.present b.size) [
  | some n ↦ of_chunk b Out.bytes (read_bytes text from n)
  | none ↦ measure b (length text) from
]

unfoldable pub hex_nibble : ℕ → Option ℕ
hex_nibble c =
    if leb b'0' c && leb c b'9'
    then some (c - b'0')
    else if leb b'a' c && leb c b'f'
    then some (c - b'a' + 10)
    else if leb b'A' c && leb c b'F'
    then some (c - b'A' + 10)
    else none

unfoldable pub hex_byte : Option ℕ → Option ℕ → Option ℕ
hex_byte (some high) (some low) = some (high * 16 + low)
hex_byte _ _ = none

-- The loop over `copy` bytes: what it stores, and whether it reached the end.
unfoldable pub decode_hex : ℕ → Bytes → Bytes × Bool
decode_hex zero digits = ([], true)
decode_hex (suc copy) (h ∷ l ∷ digits) = elim (hex_byte (hex_nibble h) (hex_nibble l)) [
  | none ↦ ([], false)
  | some n ↦ (let (rest, done) = decode_hex copy digits in (n ∷ rest, done))
]
decode_hex (suc copy) _ = ([], false)

-- At a refused digit the indicator and the bytes in front of it are written already.
unfoldable pub of_hex : Buffer → ℕ → ℕ → ℕ → ℕ → Bytes × Bool → Conversion
of_hex b total from remaining copy (decoded, false) = record {
  code = failed (diag_record (codes "22018") (codes "BINARY cell is not valid hex"));
  out = some (Out.bytes decoded);
  written = when b.indicator (pos remaining);
  offset = none;
}
of_hex b total from remaining copy (decoded, true) = of_chunk b Out.bytes (
    if ltb copy remaining
    then delivered decoded remaining (from + copy) true
    else delivered decoded remaining (total + 1) false)

unfoldable pub min : ℕ → ℕ → ℕ
min a b = if ltb a b then a else b

unfoldable pub convert_hex : Buffer → Bytes → ℕ → Conversion
convert_hex b text from =
    let total = length text / 2 in
    if ltb total from then measure b total from else elim (usable b.present b.size) [
      | none ↦ measure b total from
      | some n ↦
          of_hex b total from (total - from) (min (total - from) n)
            (decode_hex (min (total - from) n) (drop (from * 2) text))
    ]

unfoldable pub is_binary : SqlType → Bool
is_binary varbinary = true
is_binary _ = false
