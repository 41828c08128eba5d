-- ===== src/Http/Chunked.antt =====
-- `decode_chunked` of src/http.c.
pub mod RoundTrip
mod Fuel
use frostlake_odbc.Base.{
  ℕ, zero, suc, ◌+◌, ◌-◌, ◌*◌, Bool, true, false, ◌&&◌, ◌||◌, Option, none, some, [], ◌∷◌, ◌++◌,
  ◌==◌, ltb, leb, if◌then◌else◌, Bytes, length, take, drop, peek, strip_prefix,
}
use frostlake_odbc.Base.Int.{ℤ, pos, negsuc, neg}
use frostlake_odbc.Sql.Scanner.{drop_one}
use frostlake_odbc.Response.Decode.{long_max}
use frostlake_odbc.Results.Integer.{skip_c_spaces}
use frostlake_odbc.Results.Convert.Pieces.{hex_nibble}
use frostlake_odbc.Http.Header.{split_on, crlf}

unfoldable pub is_hex : ℕ → Bool
is_hex c = elim (hex_nibble c) [ some d ↦ true | none ↦ false ]

unfoldable pub add_digit : ℕ → Option ℕ → Option ℕ
add_digit n none = none
add_digit n (some d) = some (n * 16 + d)

unfoldable pub hex_or : ℕ → Option ℕ → ℕ
hex_or n none = n
hex_or n (some m) = m

-- The value of the hexadecimal digits in front.
unfoldable pub hex_run : ℕ → Bytes → ℕ
hex_run n [] = n
hex_run n (c ∷ s) =
    let more = hex_run (hex_or n (add_digit n (hex_nibble c))) s in if is_hex c then more else n

-- `0x` in front of a digit.
unfoldable pub skip_mark : Bytes → Bytes
skip_mark s =
    if peek s == b'0'
      && (peek (drop 1 s) == b'x' || peek (drop 1 s) == b'X')
      && is_hex (peek (drop 2 s))
    then drop 2 s
    else s

unfoldable pub clamp : ℕ → ℕ
clamp n = if ltb long_max n then long_max else n

-- `strtol(text, NULL, 16)`
unfoldable pub signed_hex : Bytes → ℤ
signed_hex s =
    if peek s == b'-'
    then (let n = hex_run 0 (skip_mark (drop_one s)) in
        if ltb long_max n then negsuc long_max else neg n)
    else pos (clamp (hex_run 0 (skip_mark (if peek s == b'+' then drop_one s else s))))

unfoldable pub strtol_hex : Bytes → ℤ
strtol_hex s = signed_hex (skip_c_spaces s)

-- The body, -1, or a copy of more bytes than the memory has.
pub data Decoded : Type 0 where
  decoded : Bytes → Decoded
  malformed copy_overrun : Decoded

unfoldable pub skip_crlf : Bytes → Bytes
skip_crlf s = elim (strip_prefix crlf s) [ some rest ↦ rest | none ↦ s ]

-- A chunk, behind its size line; `position` is read_pos there. For a negative size the cast to
-- size_t makes the sum wrap around: it passes the check when it is as far back as the body goes.
unfoldable pub take_chunk : (Bytes → Bytes → Decoded) → ℕ → Bytes → Bytes → ℤ → Decoded
take_chunk next position out after (pos zero) = decoded out
take_chunk next position out after (pos (suc n)) =
    if ltb (length after) (suc n)
    then malformed
    else next (out ++ take (suc n) after) (skip_crlf (drop (suc n) after))
take_chunk next position out after (negsuc n) =
    if leb (suc n) position then copy_overrun else malformed

unfoldable pub after_line :
    (Bytes → Bytes → Decoded) → ℕ → Bytes → Bytes → Option (Bytes × Bytes) → Decoded
after_line next total out rest none = malformed
after_line next total out rest (some (line, after)) =
    take_chunk next (total - length after) out after (strtol_hex rest)

-- The loop over what is not read yet, on fuel: every round takes a line.
unfoldable pub chunk_loop : ℕ → ℕ → Bytes → Bytes → Decoded
chunk_loop zero total out rest = malformed
chunk_loop (suc fuel) total out [] = decoded out
chunk_loop (suc fuel) total out (c ∷ s) =
    after_line (chunk_loop fuel total) total out (c ∷ s) (split_on crlf (c ∷ s))

unfoldable pub decode_chunked : Bytes → Decoded
decode_chunked body = chunk_loop (suc (length body)) (length body) [] body
