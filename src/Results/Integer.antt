-- ===== src/Results/Integer.antt =====
-- `parse_integer` of src/results.c, and the integer targets of `convert_cell`.
pub mod Exact
use frostlake_odbc.Base.{
  ℕ, zero, suc, ◌+◌, ◌-◌, ◌*◌, ◌%◌, Bool, true, false, ◌&&◌, ◌||◌, not, none, some, Option, [], ◌∷◌,
  ◌==◌, ltb, leb, if◌then◌else◌, Bytes, peek,
}
use frostlake_odbc.Base.Int.{ℤ, pos, negsuc, neg, wrap_int}
use frostlake_odbc.Sql.Scanner.{is_digit, drop_one}

-- The answers 0 with *out, -1 and -2.
pub data Parsed : Type 0 where
  value : ℤ → Parsed
  not_number overflow : Parsed

unfoldable pub is_c_space : ℕ → Bool
is_c_space c = c == b' ' || (leb 9 c && leb c 13)

unfoldable pub skip_c_spaces : Bytes → Bytes
skip_c_spaces [] = []
skip_c_spaces (c ∷ s) = if is_c_space c then skip_c_spaces s else c ∷ s

-- The digits in front, as a number on top of `n`, and what stands behind them.
unfoldable pub read_digits : ℕ → Bytes → ℕ × Bytes
read_digits n [] = (n, [])
read_digits n (c ∷ s) =
    let more = read_digits (n * 10 + (c - b'0')) s in if is_digit c then more else (n, c ∷ s)

unfoldable pub skip_digits : Bytes → Bytes
skip_digits [] = []
skip_digits (c ∷ s) = if is_digit c then skip_digits s else c ∷ s

unfoldable pub skip_fraction : Bytes → Bytes
skip_fraction [] = []
skip_fraction (c ∷ s) = if c == b'.' then skip_digits s else c ∷ s

-- Spaces to the end.
unfoldable pub only_spaces : Bytes → Bool
only_spaces [] = true
only_spaces (c ∷ s) = c == b' ' && only_spaces s

abbrev pub max_magnitude : ℕ
max_magnitude = 9223372036854775808

-- ERANGE comes before the look at what follows the digits.
unfoldable pub bounded : Bool → ℕ × Bytes → Parsed
bounded negative (n, rest) =
    if ltb max_magnitude n || (not negative && n == max_magnitude)
    then overflow
    else if only_spaces (skip_fraction rest)
    then value (if negative then neg n else pos n)
    else not_number

unfoldable pub signed : Bool → Bytes → Parsed
signed negative s = if is_digit (peek s) then bounded negative (read_digits 0 s) else not_number

unfoldable pub parse_integer : Bytes → Parsed
parse_integer text =
    let s = skip_c_spaces text in
    if peek s == b'-'
    then signed true (drop_one s)
    else if peek s == b'+'
    then signed false (drop_one s)
    else signed false s

-- SQL_C_SLONG and SQL_C_LONG; SQL_C_ULONG; SQL_C_SSHORT and SQL_C_SHORT; SQL_C_USHORT;
-- SQL_C_STINYINT and SQL_C_TINYINT; SQL_C_UTINYINT; SQL_C_SBIGINT; SQL_C_UBIGINT.
pub data Target : Type 0 where
  slong ulong sshort ushort stinyint utinyint sbigint ubigint : Target

-- The number of values below zero that the check lets through, and the largest value.
unfoldable pub below_zero : Target → ℕ
below_zero slong = 2147483648
below_zero sshort = 32768
below_zero stinyint = 128
below_zero utinyint = 128
below_zero sbigint = max_magnitude
below_zero ubigint = max_magnitude
below_zero _ = 0

unfoldable pub largest : Target → ℕ
largest slong = 2147483647
largest ulong = 4294967295
largest sshort = 32767
largest ushort = 65535
largest stinyint = 255
largest utinyint = 255
largest sbigint = max_magnitude - 1
largest ubigint = max_magnitude - 1

unfoldable pub in_range : Target → ℤ → Bool
in_range target (pos n) = leb n (largest target)
in_range target (negsuc n) = ltb n (below_zero target)

-- A cast to an unsigned type of `modulus` values.
unfoldable pub residue : ℕ → ℤ → ℕ
residue modulus (pos n) = n % modulus
residue modulus (negsuc n) = modulus - 1 - n % modulus

-- The cast in front of the write: to SQLINTEGER, SQLUINTEGER, SQLSMALLINT, SQLUSMALLINT, SQLCHAR
-- (an unsigned char) and SQLBIGINT.
unfoldable pub cast : Target → ℤ → ℤ
cast slong z = wrap_int 2147483648 z
cast ulong z = pos (residue 4294967296 z)
cast sshort z = wrap_int 32768 z
cast ushort z = pos (residue 65536 z)
cast stinyint z = pos (residue 256 z)
cast utinyint z = pos (residue 256 z)
cast sbigint z = wrap_int max_magnitude z
cast ubigint z = wrap_int max_magnitude z

-- The value that is written into the buffer at the cast's type, SQLSTATE 22003, or SQLSTATE 22018.
pub data Stored : Type 0 where
  stored : ℤ → Stored
  out_of_range invalid_number : Stored

unfoldable pub store : Target → Parsed → Stored
store target (value z) = if in_range target z then stored (cast target z) else out_of_range
store target not_number = invalid_number
store target overflow = out_of_range

unfoldable pub convert_integer : Target → Bytes → Stored
convert_integer target text = store target (parse_integer text)
