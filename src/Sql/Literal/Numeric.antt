-- ===== src/Sql/Literal/Numeric.antt =====
-- The characters of a text that `is_numeric_literal` of src/execute.c accepts.
use frostlake_odbc.Base.{
  ℕ, ◌+◌, ◌≡◌, Bool, true, Bool-cases, inl, inr, ◌||◌, [], ◌∷◌, arith, Bytes, All, ◌==◌,
}
use frostlake_odbc.Sql.Scanner.{is_digit}
use frostlake_odbc.Sql.Literal.{
  is_blank, skip_blanks, all_blank, trim_end, digits, skip_sign, exponent_digits, exponent,
  after_mantissa, after_integer, is_numeric_literal,
}

-- Digits, signs, the point, the letters of an exponent, and blanks.
unfoldable pub is_number_byte : ℕ → Bool
unfolding is_digit is_blank
is_number_byte c =
    is_digit c || c == b'+' || c == b'-' || c == b'.' || c == b'e' || c == b'E' || is_blank c

abbrev pub AllNumber : Bytes → Type 0
AllNumber s = All (λ c. is_number_byte c ≡ true) s

AllNumber-skip_blanks : (s : Bytes) → AllNumber (skip_blanks s) → AllNumber s
unfolding skip_blanks is_number_byte
AllNumber-skip_blanks [] h = tt
AllNumber-skip_blanks (c ∷ s) h = ground (arith, AllNumber-skip_blanks s)

AllNumber-all_blank : (s : Bytes) → all_blank s ≡ true → AllNumber s
unfolding all_blank is_number_byte
AllNumber-all_blank [] h = tt
AllNumber-all_blank (c ∷ s) h = ground (arith, AllNumber-all_blank s)

AllNumber-trim_end : (s : Bytes) → AllNumber (trim_end s) → AllNumber s
unfolding trim_end
AllNumber-trim_end [] h = tt
AllNumber-trim_end (c ∷ s) h = elim (Bool-cases (all_blank (c ∷ s))) [
  | inl e ↦ AllNumber-all_blank (c ∷ s) e
  | inr e ↦
      let k : is_number_byte c ≡ true × AllNumber (trim_end s) = rw (e) at h in
      (k.0, AllNumber-trim_end s k.1)
]

AllNumber-digits : (n : ℕ) (s : Bytes) → AllNumber (digits n s).1 → AllNumber s
unfolding digits is_number_byte
AllNumber-digits n [] h = tt
AllNumber-digits n (c ∷ s) h = ground (arith, AllNumber-digits (n + 1) s)

AllNumber-skip_sign : (s : Bytes) → AllNumber (skip_sign s) → AllNumber s
unfolding skip_sign is_number_byte
AllNumber-skip_sign [] h = tt
AllNumber-skip_sign (c ∷ s) h = ground arith

exponent_digits-AllNumber : (p : ℕ × Bytes) → exponent_digits p ≡ true → AllNumber p.1
unfolding exponent_digits
exponent_digits-AllNumber (n, []) h = tt
exponent_digits-AllNumber (n, c ∷ s) h = ground arith

exponent-AllNumber : (s : Bytes) → exponent s ≡ true → AllNumber s
unfolding exponent is_number_byte
exponent-AllNumber [] h = tt
exponent-AllNumber (c ∷ s) h = ground (
  arith,
  AllNumber-skip_sign s,
  AllNumber-digits 0 (skip_sign s),
  exponent_digits-AllNumber (digits 0 (skip_sign s)),
)

after_mantissa-AllNumber : (p : ℕ × Bytes) → after_mantissa p ≡ true → AllNumber p.1
unfolding after_mantissa
after_mantissa-AllNumber (n, s) h = ground (arith, exponent-AllNumber s)

after_integer-AllNumber : (p : ℕ × Bytes) → after_integer p ≡ true → AllNumber p.1
unfolding after_integer is_number_byte
after_integer-AllNumber (n, []) h = tt
after_integer-AllNumber (n, c ∷ s) h = ground (
  arith,
  after_mantissa-AllNumber (digits n s),
  after_mantissa-AllNumber (n, c ∷ s),
  AllNumber-digits n s,
)

-- Text that passes for a number is made of digits, signs, points, `e`, `E` and blanks alone.
pub is_numeric_literal-AllNumber : (text : Bytes) → is_numeric_literal text ≡ true → AllNumber text
unfolding is_numeric_literal
is_numeric_literal-AllNumber text h =
    let trimmed = trim_end (skip_blanks text) in
    AllNumber-skip_blanks text (
      AllNumber-trim_end (skip_blanks text) (
        AllNumber-skip_sign trimmed (
          AllNumber-digits 0 (skip_sign trimmed)
            (after_integer-AllNumber (digits 0 (skip_sign trimmed)) (ground arith)))))
