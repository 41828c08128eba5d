-- ===== src/Json/Text/RoundTrip.antt =====
-- Reading back the string literals that `fl_strbuf_append_json_string` writes.
use frostlake_odbc.Base.{
  ℕ, zero, suc, ◌+◌, ◌*◌, ◌/◌, ◌%◌, ◌≤◌, ◌<◌, ◌≡◌, refl, ◌∙◌, ap, [], ◌∷◌, ◌++◌, append-nil,
  append_assoc, arith, Bytes, length, length-append, false, some,
}
use frostlake_odbc.Json.Text.{
  ok, text, hex_digit, escape_byte, escape, hex_value, shift_in, parse_hex4, utf8, joins,
  parse_piece, parse_body, parse_string_body, parse_unicode, parse_escape,
}

hex_value-digit : (n : ℕ) → n < 16 → hex_value (hex_digit n) ≡ some n
unfolding hex_value hex_digit
hex_value-digit n h = ground arith

hex_value-zero : hex_value b'0' ≡ some 0
unfolding hex_value
hex_value-zero = refl

parse_hex4-hex_digit :
    (a b : ℕ) (s : Bytes)
    → a < 16
    → b < 16
    → parse_hex4 (b'0' ∷ b'0' ∷ hex_digit a ∷ hex_digit b ∷ s) ≡ ok (a * 16 + b) s
unfolding parse_hex4 shift_in
parse_hex4-hex_digit a b s p q =
    ground (arith, hex_value-digit a p, hex_value-digit b q, hex_value-zero)

joins-control : (c : ℕ) (s : Bytes) → c < 32 → joins c s ≡ false
unfolding joins
joins-control c [] h = refl
joins-control c (a ∷ []) h = refl
joins-control c (a ∷ b ∷ s) h = ground arith

utf8-control : (c : ℕ) → c < 32 → utf8 c ≡ c ∷ []
unfolding utf8
utf8-control c h = ground arith

parse_unicode-control :
    (c : ℕ) (s : Bytes)
    → c < 32
    → parse_unicode (b'0' ∷ b'0' ∷ hex_digit (c / 16) ∷ hex_digit (c % 16) ∷ s)
      ≡ ok (text (c ∷ [])) s
unfolding parse_unicode
parse_unicode-control c s h =
    let e : c / 16 * 16 + c % 16 ≡ c = omega arith in
    rw (
      parse_hex4-hex_digit (c / 16) (c % 16) s (omega arith) (omega arith),
      e,
      joins-control c s h,
      utf8-control c h,
    )

parse_piece-escape_byte :
    (c : ℕ) (s : Bytes) → parse_piece (escape_byte c ++ s) ≡ ok (text (c ∷ [])) s
unfolding parse_piece parse_escape escape_byte
parse_piece-escape_byte c s = ground (arith, parse_unicode-control c s)

parse_body-text :
    (fuel : ℕ) (buf s : Bytes) {bytes r : Bytes}
    → parse_piece s ≡ ok (text bytes) r
    → parse_body (suc fuel) buf s ≡ parse_body fuel (buf ++ bytes) r
unfolding parse_body
parse_body-text fuel buf s e = rw (e, parse_body)

parse_body-escape :
    (s rest buf : Bytes) (fuel : ℕ)
    → length s < fuel
    → parse_body fuel buf (escape s ++ (b'"' ∷ rest)) ≡ ok (buf ++ s) rest
unfolding parse_body escape
parse_body-escape s rest buf zero h = absurd (omega arith)
parse_body-escape [] rest buf (suc fuel) h = rw append-nil (unfold parse_piece in refl)
parse_body-escape (c ∷ s) rest buf (suc fuel) h = rw append_assoc (
    parse_body-text fuel buf _ (parse_piece-escape_byte c _)
    ∙ parse_body-escape s rest (buf ++ c ∷ []) fuel (omega arith)
    ∙ ap (λ t. ok t rest) (append_assoc buf (c ∷ []) s))

length-escape_byte : (c : ℕ) → 1 ≤ length (escape_byte c)
unfolding escape_byte
length-escape_byte c = ground arith

pub length-escape : (s : Bytes) → length s ≤ length (escape s)
unfolding escape
length-escape [] = omega arith
length-escape (c ∷ s) =
    omega (arith, length-escape s, length-escape_byte c, length-append (escape_byte c) (escape s))

-- Behind its opening quote, the literal written for any text reads back as that text, and the
-- reader stops just past the closing quote.
pub parse_string_body-escape :
    (s rest : Bytes) → parse_string_body (escape s ++ (b'"' ∷ rest)) ≡ ok s rest
unfolding parse_string_body
parse_string_body-escape s rest =
    parse_body-escape s rest [] (suc (length (escape s ++ (b'"' ∷ rest))))
      (omega (arith, length-escape s, length-append (escape s) (b'"' ∷ rest)))
