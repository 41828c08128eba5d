-- ===== src/Results/Chunk.antt =====
-- The case SQL_C_CHAR of `convert_cell` in src/results.c: a text that is read in pieces.
pub mod Whole
use frostlake_odbc.Base.{
  ℕ, zero, suc, ◌+◌, Bool, true, false, ◌&&◌, Option, none, some, ◌++◌, ltb, leb, if◌then◌else◌,
  Bytes, length, get_elem?, take, drop,
}

-- (c & 0xC0) == 0x80
unfoldable pub is_continuation : ℕ → Bool
is_continuation c = leb 128 c && ltb c 192

unfoldable pub is_continuation_at : Bytes → ℕ → Bool
is_continuation_at s i = elim (get_elem? s i) [ some c ↦ is_continuation c | none ↦ false ]

-- while (whole > 0 && continuation(text[from + whole])) whole--;
unfoldable pub back_up : Bytes → ℕ → ℕ
back_up rest zero = zero
back_up rest (suc whole) =
    let back = back_up rest whole in if is_continuation_at rest (suc whole) then back else suc whole

-- How many bytes go into a buffer with room for `room` and a NUL.
unfoldable pub copy_size : Bytes → ℕ → ℕ
copy_size rest room =
    if leb (length rest) room
    then length rest
    else (let whole = back_up rest room in if ltb 0 whole then whole else room)

-- SQL_NO_DATA; or the bytes in the buffer, the indicator, the new offset, and whether the data
-- was truncated (01004).
pub data Chunk : Type 0 where
  no_data : Chunk
  delivered : Bytes → ℕ → ℕ → Bool → Chunk

unfoldable pub read_rest : Bytes → ℕ → Bytes → ℕ → Chunk
read_rest text offset rest room =
    let copy = copy_size rest room in
    if ltb copy (length rest)
    then delivered (take copy rest) (length rest) (offset + copy) true
    else delivered (take copy rest) (length rest) (length text + 1) false

-- One call, with a buffer of `room` + 1 bytes.
unfoldable pub read_char : Bytes → ℕ → ℕ → Chunk
read_char text offset room =
    if ltb (length text) offset then no_data else read_rest text offset (drop offset text) room

-- The application's loop: call until SQL_NO_DATA, each time with a buffer of the same size, on
-- fuel; `got` is what the calls have delivered. None when the fuel runs out first.
unfoldable pub read_loop : ℕ → Bytes → ℕ → ℕ → Bytes → Option Bytes
read_loop zero text room offset got = none
read_loop (suc fuel) text room offset got = elim (read_char text offset room) [
  | no_data ↦ some got
  | delivered bytes indicator next truncated ↦ read_loop fuel text room next (got ++ bytes)
]
