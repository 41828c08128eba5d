-- ===== src/Results/Temporal.antt =====
-- `parse_date_part`, `parse_time_part` and `parse_timestamp` of src/results.c, over the memory of a
-- C string: its bytes and one NUL.
pub mod Scan
pub mod RoundTrip
use frostlake_odbc.Base.{
  ℕ, zero, suc, ◌+◌, ◌-◌, ◌*◌, ◌^◌, ◌||◌, Option, none, some, [], ◌∷◌, ◌==◌, ltb, if◌then◌else◌,
  Bytes, length, drop, peek,
}
use frostlake_odbc.Base.Int.{ℤ, pos, negsuc, neg}
use frostlake_odbc.Sql.Scanner.{is_digit}
use frostlake_odbc.Results.Integer.{skip_c_spaces}

-- At most `width` digits in front, as a number on top of `n`, with what follows.
unfoldable pub scan_digits : ℕ → ℕ → Bytes → ℕ × Bytes
scan_digits zero n s = (n, s)
scan_digits (suc width) n [] = (n, [])
scan_digits (suc width) n (c ∷ s) =
    let more = scan_digits width (n * 10 + (c - b'0')) s in if is_digit c then more else (n, c ∷ s)

-- The digits behind a sign; a number needs one at least.
unfoldable pub scan_unsigned : ℕ → (ℕ → ℤ) → Bytes → Option (ℤ × Bytes)
scan_unsigned zero sign s = none
scan_unsigned (suc width) sign s =
    if is_digit (peek s)
    then (let (n, rest) = scan_digits (suc width) 0 s in some (sign n, rest))
    else none

-- `%<width>d` of sscanf: blanks, then a sign and digits, `width` characters at most.
unfoldable pub scan_signed : ℕ → Bytes → Option (ℤ × Bytes)
scan_signed width [] = none
scan_signed width (c ∷ s) =
    if c == b'-'
    then scan_unsigned (width - 1) neg s
    else if c == b'+'
    then scan_unsigned (width - 1) pos s
    else scan_unsigned width pos (c ∷ s)

unfoldable pub scan_int : ℕ → Bytes → Option (ℤ × Bytes)
scan_int width s = scan_signed width (skip_c_spaces s)

-- A literal character of the format, and the number behind it.
unfoldable pub scan_next : ℕ → ℕ → Bytes → Option (ℤ × Bytes)
scan_next mark width [] = none
scan_next mark width (c ∷ s) = if c == mark then scan_int width s else none

-- `%<width>d<mark>%2d<mark>%2d`, when all three are there.
unfoldable pub third_of : ℤ → ℤ → Option (ℤ × Bytes) → Option (ℤ × ℤ × ℤ)
third_of a b none = none
third_of a b (some (c, rest)) = some (a, b, c)

unfoldable pub second_of : ℕ → ℤ → Option (ℤ × Bytes) → Option (ℤ × ℤ × ℤ)
second_of mark a none = none
second_of mark a (some (b, rest)) = third_of a b (scan_next mark 2 rest)

unfoldable pub first_of : ℕ → Option (ℤ × Bytes) → Option (ℤ × ℤ × ℤ)
first_of mark none = none
first_of mark (some (a, rest)) = second_of mark a (scan_next mark 2 rest)

unfoldable pub scan_three : ℕ → ℕ → Bytes → Option (ℤ × ℤ × ℤ)
scan_three width mark s = first_of mark (scan_int width s)

-- A cast to SQLUSMALLINT.
unfoldable pub to_u16 : ℤ → ℕ
to_u16 (pos n) = n
to_u16 (negsuc n) = 65535 - n

-- SQL_DATE_STRUCT and SQL_TIME_STRUCT. Four characters are within SQLSMALLINT.
pub record Date : Type 0 where
  pub year : ℤ
  pub month : ℕ
  pub day : ℕ

pub record Time : Type 0 where
  pub hour : ℕ
  pub minute : ℕ
  pub second : ℕ

-- SQL_TIMESTAMP_STRUCT
pub record Timestamp : Type 0 where
  pub date : Date
  pub time : Time
  pub fraction : ℕ

-- The `-1` of the parsers; a value; or a read behind the NUL of the text.
pub data Read {ℓ} (A : Type ℓ) : Type ℓ where
  read : A → Read A
  unreadable overrun : Read A

unfoldable pub to_date : Option (ℤ × ℤ × ℤ) → Read Date
to_date none = unreadable
to_date (some (y, m, d)) = read (record { year = y; month = to_u16 m; day = to_u16 d })

unfoldable pub to_time : Option (ℤ × ℤ × ℤ) → Read Time
to_time none = unreadable
to_time (some (h, m, s)) = read (record { hour = to_u16 h; minute = to_u16 m; second = to_u16 s })

unfoldable pub parse_date_part : Bytes → Read Date
parse_date_part text = to_date (scan_three 4 b'-' text)

-- With `fraction` NULL, which is how SQL_C_TYPE_TIME calls it.
unfoldable pub parse_time : Bytes → Read Time
parse_time text = to_time (scan_three 2 b':' text)

-- The two loops over a fraction's digits: the first nine, and zeros up to nine places.
unfoldable pub fraction_digits : ℕ → ℕ → Bytes → ℕ
fraction_digits zero value s = value
fraction_digits (suc left) value [] = value * 10 ^ suc left
fraction_digits (suc left) value (c ∷ s) =
    let more = fraction_digits left (value * 10 + (c - b'0')) s in
    if is_digit c then more else value * 10 ^ suc left

-- What `text[8]` begins.
unfoldable pub parse_fraction : Bytes → ℕ
parse_fraction [] = 0
parse_fraction (c ∷ s) = if c == b'.' then fraction_digits 9 0 s else 0

-- With a fraction wanted, `text[8]` is read, whatever the scan has taken.
unfoldable pub with_fraction : Bytes → Read Time → Read (Time × ℕ)
with_fraction text unreadable = unreadable
with_fraction text overrun = overrun
with_fraction text (read t) =
    if ltb (length text) 8 then overrun else read (t, parse_fraction (drop 8 text))

unfoldable pub parse_time_part : Bytes → Read (Time × ℕ)
parse_time_part text = with_fraction text (parse_time text)

abbrev pub midnight : Time
midnight = record { hour = 0; minute = 0; second = 0 }

unfoldable pub on_date : Date → Read (Time × ℕ) → Read Timestamp
on_date d (read (t, n)) = read (record { date = d; time = t; fraction = n })
on_date d unreadable = unreadable
on_date d overrun = overrun

unfoldable pub at_midnight : Date → Read Timestamp
at_midnight d = read (record { date = d; time = midnight; fraction = 0 })

-- `rest` is what stands at `text + 10`, which holds a time behind a blank or a `T`.
unfoldable pub parse_rest : Date → Bytes → Read Timestamp
parse_rest d [] = at_midnight d
parse_rest d (c ∷ s) =
    if c == b' ' || c == b'T' then on_date d (parse_time_part s) else at_midnight d

-- `text + 10` is read, whatever the scan has taken.
unfoldable pub from_date : Bytes → Read Date → Read Timestamp
from_date text unreadable = unreadable
from_date text overrun = overrun
from_date text (read d) = if ltb (length text) 10 then overrun else parse_rest d (drop 10 text)

unfoldable pub parse_timestamp : Bytes → Read Timestamp
parse_timestamp text = from_date text (parse_date_part text)
