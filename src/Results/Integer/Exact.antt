-- ===== src/Results/Integer/Exact.antt =====
-- The integer targets of src/results.c on the text that src/execute.c writes for an integer.
use frostlake_odbc.Base.{
  ℕ, zero, suc, ◌+◌, ◌-◌, ◌*◌, ◌/◌, ◌%◌, ◌^◌, ◌<◌, Bool, true, false, ◌≡◌, ap, ◌∙◌, [], ◌∷◌, ◌==◌,
  ltb, if◌then◌else◌, Bytes, peek, arith, Bool-cases, inl, inr,
}
use frostlake_odbc.Base.Int.{ℤ, pos, negsuc, wrap_int, to_signed}
use frostlake_odbc.Sql.Scanner.{is_digit, drop_one}
use frostlake_odbc.Proto.Request.{decimal_loop, decimal}
use frostlake_odbc.Bind.Param.{signed_decimal}
use frostlake_odbc.Results.Integer.{
  value, is_c_space, skip_c_spaces, read_digits, only_spaces, skip_fraction, bounded, signed,
  parse_integer, Target, slong, ulong, sshort, ushort, stinyint, utinyint, sbigint, ubigint,
  in_range, Stored, stored, out_of_range, invalid_number, store, cast, residue, convert_integer,
  below_zero, largest,
}

read_digits-digit :
    (n d : ℕ) (s : Bytes) → d < 10 → read_digits n ((b'0' + d) ∷ s) ≡ read_digits (n * 10 + d) s
unfolding read_digits is_digit
read_digits-digit n d s h = let e : b'0' + d - b'0' ≡ d = omega arith in ground (arith, e)

read_digits-decimal_loop :
    (fuel n : ℕ) (later : Bytes)
    → n < fuel
    → read_digits 0 (decimal_loop fuel n later) ≡ read_digits n later
unfolding decimal_loop
read_digits-decimal_loop zero n later h = absurd (omega arith)
read_digits-decimal_loop (suc fuel) n later h = elim (Bool-cases (ltb n 10)) [
  | inl e ↦
      rw (e, decimal_loop)
        (read_digits-digit 0 (n % 10) later (omega arith)
          ∙ ap (λ m. read_digits m later) (ground (arith, e)))
  | inr e ↦
      rw (e, decimal_loop)
        (read_digits-decimal_loop fuel (n / 10) _ (ground (arith, e))
          ∙ read_digits-digit (n / 10) (n % 10) later (omega arith)
          ∙ ap (λ m. read_digits m later) (omega arith))
]

-- A list that starts with a digit.
data Digital : Bytes → Type 0 where
  digital : (d : ℕ) (s : Bytes) → d < 10 → Digital ((b'0' + d) ∷ s)

decimal_loop-Digital : (fuel n : ℕ) (later : Bytes) → n < fuel → Digital (decimal_loop fuel n later)
unfolding decimal_loop
decimal_loop-Digital zero n later h = absurd (omega arith)
decimal_loop-Digital (suc fuel) n later h = elim (Bool-cases (ltb n 10)) [
  | inl e ↦ rw (e, decimal_loop) (digital (n % 10) later (omega arith))
  | inr e ↦ rw (e, decimal_loop) (decimal_loop-Digital fuel (n / 10) _ (ground (arith, e)))
]

skip_c_spaces-Digital : {s : Bytes} → Digital s → skip_c_spaces s ≡ s
unfolding skip_c_spaces is_c_space
skip_c_spaces-Digital (digital d s h) = ground arith

signed-Digital :
    (negative : Bool) {s : Bytes}
    → Digital s
    → signed negative s ≡ bounded negative (read_digits 0 s)
unfolding signed is_digit
signed-Digital negative (digital d s h) = ground arith

unsigned-Digital : {s : Bytes} → Digital s → ((peek s == b'-') ≡ false) × ((peek s == b'+') ≡ false)
unsigned-Digital (digital d s h) = ground arith

parse_integer-plain : {s : Bytes} → Digital s → parse_integer s ≡ bounded false (read_digits 0 s)
unfolding parse_integer
parse_integer-plain {s} h =
    let e = unsigned-Digital h in
    ap
      (λ t.
        if peek t == b'-'
        then signed true (drop_one t)
        else if peek t == b'+'
        then signed false (drop_one t)
        else signed false t)
      (skip_c_spaces-Digital h)
    ∙ rw (e.0, e.1) (signed-Digital false h)

parse_integer-minus :
    {s : Bytes} → Digital s → parse_integer (b'-' ∷ s) ≡ bounded true (read_digits 0 s)
unfolding parse_integer skip_c_spaces is_c_space
parse_integer-minus h = signed-Digital true h

read_digits-decimal : (n : ℕ) → read_digits 0 (decimal n) ≡ (n, [])
unfolding decimal read_digits
read_digits-decimal n = read_digits-decimal_loop (suc n) n [] (omega arith)

decimal-Digital : (n : ℕ) → Digital (decimal n)
unfolding decimal
decimal-Digital n = decimal_loop-Digital (suc n) n [] (omega arith)

-- The values of a C integer type of so many bits, signed or not.
unfoldable pub holds : Bool → ℕ → ℤ → Bool
holds true bits (pos n) = ltb n (2 ^ (bits - 1))
holds true bits (negsuc n) = ltb n (2 ^ (bits - 1))
holds false bits (pos n) = ltb n (2 ^ bits)
holds false bits (negsuc n) = false

-- The type that an application reads at each target, by the ODBC names: whether it is signed, and
-- its bits.
unfoldable pub holds_at : Target → ℤ → Bool
holds_at slong z = holds true 32 z
holds_at ulong z = holds false 32 z
holds_at sshort z = holds true 16 z
holds_at ushort z = holds false 16 z
holds_at stinyint z = holds true 8 z
holds_at utinyint z = holds false 8 z
holds_at sbigint z = holds true 64 z
holds_at ubigint z = holds false 64 z

-- The application reads the buffer at its own type, which differs from the one that the driver
-- writes at for SQL_C_STINYINT and SQL_C_UBIGINT.
unfoldable pub read_as : Target → ℤ → ℤ
read_as stinyint z = wrap_int 128 z
read_as ubigint z = pos (residue (2 ^ 64) z)
read_as _ z = z

unfoldable pub seen : Target → Stored → Stored
seen target (stored z) = stored (read_as target z)
seen target out_of_range = out_of_range
seen target invalid_number = invalid_number

-- What an application sees of a number that its type does not hold: SQLSTATE 22003, but for a byte
-- that is one of the other signedness, and for a number below zero at SQL_C_UBIGINT.
unfoldable pub seen_outside : Target → ℤ → Stored
seen_outside stinyint (pos n) = if ltb n 256 then stored (negsuc (255 - n)) else out_of_range
seen_outside utinyint (negsuc n) = if ltb n 128 then stored (pos (255 - n)) else out_of_range
seen_outside ubigint (negsuc n) = stored (pos (18446744073709551615 - n))
seen_outside _ z = out_of_range

parse_integer-signed_decimal :
    (z : ℤ) → holds true 64 z ≡ true → parse_integer (signed_decimal z) ≡ value z
unfolding signed_decimal holds bounded only_spaces skip_fraction
parse_integer-signed_decimal (pos n) h =
    parse_integer-plain (decimal-Digital n)
    ∙ ap (bounded false) (read_digits-decimal n)
    ∙ ground arith
parse_integer-signed_decimal (negsuc n) h =
    parse_integer-minus (decimal-Digital (suc n))
    ∙ ap (bounded true) (read_digits-decimal (suc n))
    ∙ ground arith

store-seen :
    (target : Target) (z : ℤ)
    → holds true 64 z ≡ true
    → seen target (store target (value z))
      ≡ (if holds_at target z then stored z else seen_outside target z)
unfolding seen store in_range below_zero largest cast wrap_int to_signed residue read_as holds
    holds_at seen_outside
store-seen slong (pos n) h = ground arith
store-seen slong (negsuc n) h = ground arith
store-seen ulong (pos n) h = ground arith
store-seen ulong (negsuc n) h = ground arith
store-seen sshort (pos n) h = ground arith
store-seen sshort (negsuc n) h = ground arith
store-seen ushort (pos n) h = ground arith
store-seen ushort (negsuc n) h = ground arith
store-seen stinyint (pos n) h = ground arith
store-seen stinyint (negsuc n) h = ground arith
store-seen utinyint (pos n) h = ground arith
store-seen utinyint (negsuc n) h = ground arith
store-seen sbigint (pos n) h = ground arith
store-seen sbigint (negsuc n) h = ground arith
store-seen ubigint (pos n) h = ground arith
store-seen ubigint (negsuc n) h = ground arith

-- The decimal text of a number of 64 bits, which is how the driver writes a bound integer: at every
-- integer target whose C type holds the number, the application sees that number; at the others it
-- sees SQLSTATE 22003, but for a byte of the other signedness and for a number below zero at
-- SQL_C_UBIGINT, which it sees wrapped around.
pub convert_integer-signed_decimal :
    (target : Target) (z : ℤ)
    → holds true 64 z ≡ true
    → seen target (convert_integer target (signed_decimal z))
      ≡ (if holds_at target z then stored z else seen_outside target z)
unfolding convert_integer
convert_integer-signed_decimal target z h =
    ap (λ p. seen target (store target p)) (parse_integer-signed_decimal z h)
    ∙ store-seen target z h
