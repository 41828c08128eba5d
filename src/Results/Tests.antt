-- ===== src/Results/Tests.antt =====
-- Reads of a text in pieces and of a number, at concrete inputs.
use frostlake_odbc.Base.{◌≡◌, refl, false, ◌++◌, some, [], ◌∷◌, codes, arith, if◌then◌else◌}
use frostlake_odbc.Base.Int.{pos, negsuc}
use frostlake_odbc.Bind.Param.{signed_decimal, padded, date_text, time_text}
use frostlake_odbc.Results.Integer.{ubigint, stored, convert_integer}
use frostlake_odbc.Results.Integer.Exact.{
  holds, holds_at, seen, seen_outside, convert_integer-signed_decimal,
}
use frostlake_odbc.Results.Chunk.{is_continuation, is_continuation_at, copy_size, read_loop}
use frostlake_odbc.Results.Chunk.Whole.{read_loop-whole, copy_size-boundary}
use frostlake_odbc.Results.Temporal.{read, parse_timestamp}
use frostlake_odbc.Results.Temporal.RoundTrip.{parse_timestamp-date_text}

read_loop-whole_example : read_loop 7 (codes "abcde") 2 0 [] ≡ some (codes "abcde")
read_loop-whole_example = read_loop-whole (codes "abcde") 2 (omega arith)

-- A letter, a character of two bytes and a letter, in a buffer with room for two bytes.
copy_size-boundary_example :
    is_continuation_at (97 ∷ 195 ∷ 169 ∷ 98 ∷ []) (copy_size (97 ∷ 195 ∷ 169 ∷ 98 ∷ []) 2) ≡ false
copy_size-boundary_example =
    copy_size-boundary (97 ∷ 195 ∷ 169 ∷ 98 ∷ []) 2 1 (omega arith) (omega arith) (omega arith)
      (unfold is_continuation_at is_continuation in refl)

convert_integer-signed_decimal_example :
    seen ubigint (convert_integer ubigint (signed_decimal (negsuc 0)))
    ≡ (if holds_at ubigint (negsuc 0) then stored (negsuc 0) else seen_outside ubigint (negsuc 0))
convert_integer-signed_decimal_example =
    convert_integer-signed_decimal ubigint (negsuc 0) (unfold holds in refl)

parse_timestamp-date_text_example :
    parse_timestamp
      (date_text (pos 2024) 2 29 ++ (b'T' ∷ (time_text 23 59 7 ++ (b'.' ∷ padded 9 120000000))))
    ≡ read (record {
      date = record { year = pos 2024; month = 2; day = 29 };
      time = record { hour = 23; minute = 59; second = 7 };
      fraction = 120000000;
    })
parse_timestamp-date_text_example =
    parse_timestamp-date_text 2024 2 29 23 59 7 120000000 (omega arith) (omega arith) (omega arith)
      (omega arith) (omega arith) (omega arith) (omega arith)
