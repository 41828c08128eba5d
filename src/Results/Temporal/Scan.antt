-- ===== src/Results/Temporal/Scan.antt =====
-- The number scan of src/results.c on numbers that were printed with leading zeros.
use frostlake_odbc.Base.{
  ℕ, zero, suc, ◌+◌, ◌-◌, ◌*◌, ◌/◌, ◌%◌, ◌^◌, ◌<◌, true, false, ◌≡◌, refl, ap, ◌∙◌, some, [], ◌∷◌,
  ◌++◌, append_assoc, ◌==◌, ltb, Bytes, arith, Bool-cases, inl, inr, All, All-append, length,
  length-append, replicate,
}
use frostlake_odbc.Base.Int.{pos}
use frostlake_odbc.Sql.Scanner.{is_digit}
use frostlake_odbc.Proto.Request.{decimal_loop, decimal}
use frostlake_odbc.Proto.Request.Decimal.{
  IsDigitChar, decimal-IsDigitChar, digit_count, decimal_loop-append, length-decimal,
  digit_count-bound,
}
use frostlake_odbc.Bind.Param.{padded}
use frostlake_odbc.Results.Integer.{is_c_space, skip_c_spaces}
use frostlake_odbc.Results.Temporal.{scan_digits, scan_unsigned, scan_signed, scan_int}

scan_digits-digit :
    (k n d : ℕ) (s : Bytes)
    → d < 10
    → scan_digits (suc k) n ((b'0' + d) ∷ s) ≡ scan_digits k (n * 10 + d) s
unfolding scan_digits is_digit
scan_digits-digit k n d s h = let e : b'0' + d - b'0' ≡ d = omega arith in ground (arith, e)

scan_digits-decimal_loop :
    (fuel n k : ℕ) (later : Bytes)
    → n < fuel
    → scan_digits (digit_count fuel n + k) 0 (decimal_loop fuel n later) ≡ scan_digits k n later
unfolding decimal_loop digit_count
scan_digits-decimal_loop zero n k later h = absurd (omega arith)
scan_digits-decimal_loop (suc fuel) n k later h = elim (Bool-cases (ltb n 10)) [
  | inl e ↦
      rw (e, decimal_loop)
        (ap (λ m. scan_digits m 0 ((b'0' + n % 10) ∷ later)) {x = 1 + k} {y = suc k} (omega arith)
          ∙ scan_digits-digit k 0 (n % 10) later (omega arith)
          ∙ ap (λ m. scan_digits k m later) (ground (arith, e)))
  | inr e ↦
      rw (e, decimal_loop)
        (ap (λ m. scan_digits m 0 (decimal_loop fuel (n / 10) ((b'0' + n % 10) ∷ later)))
            {y = digit_count fuel (n / 10) + suc k} (omega arith)
          ∙ scan_digits-decimal_loop fuel (n / 10) (suc k) _ (ground (arith, e))
          ∙ scan_digits-digit k (n / 10) (n % 10) later (omega arith)
          ∙ ap (λ m. scan_digits k m later) (omega arith))
]

scan_digits-zeros :
    (z k : ℕ) (s : Bytes) → scan_digits (z + k) 0 (replicate z b'0' ++ s) ≡ scan_digits k 0 s
scan_digits-zeros zero k s = ap (λ m. scan_digits m 0 s) {x = 0 + k} {y = k} (omega arith)
scan_digits-zeros (suc z) k s =
    ap (λ m. scan_digits m 0 (b'0' ∷ (replicate z b'0' ++ s))) {x = suc z + k} {y = suc (z + k)}
      (omega arith)
    ∙ scan_digits-digit (z + k) 0 0 (replicate z b'0' ++ s) (omega arith)
    ∙ scan_digits-zeros z k s

decimal-append : (n : ℕ) (rest : Bytes) → decimal n ++ rest ≡ decimal_loop (suc n) n rest
unfolding decimal
decimal-append n rest = decimal_loop-append (suc n) n [] rest

scan_digits-decimal :
    (n k : ℕ) (rest : Bytes)
    → scan_digits (length (decimal n) + k) 0 (decimal n ++ rest) ≡ scan_digits k n rest
scan_digits-decimal n k rest =
    ap (λ m. scan_digits (m + k) 0 (decimal n ++ rest)) (length-decimal n)
    ∙ ap (scan_digits (digit_count (suc n) n + k) 0) (decimal-append n rest)
    ∙ scan_digits-decimal_loop (suc n) n k rest (omega arith)

pub scan_digits-padded :
    (width n : ℕ) (rest : Bytes)
    → n < 10 ^ suc width
    → scan_digits (suc width) 0 (padded (suc width) n ++ rest) ≡ (n, rest)
unfolding padded
scan_digits-padded width n rest h =
    ap (scan_digits (suc width) 0) (append_assoc (replicate zeros b'0') (decimal n) rest)
    ∙ ap (λ m. scan_digits m 0 (replicate zeros b'0' ++ (decimal n ++ rest))) {x = suc width}
        {y = zeros + (length (decimal n) + 0)} total
    ∙ scan_digits-zeros zeros (length (decimal n) + 0) (decimal n ++ rest)
    ∙ scan_digits-decimal n 0 rest
    ∙ unfold scan_digits in refl
  where
    zeros : ℕ
    zeros = suc width - length (decimal n)

    total : suc width ≡ suc width - length (decimal n) + (length (decimal n) + 0)
    total = omega (arith, length-decimal n, digit_count-bound width (suc n) n h)

length-replicate : (z c : ℕ) → length (replicate z c) ≡ z
length-replicate zero c = refl
length-replicate (suc z) c = ap suc (length-replicate z c)

pub length-padded : (width n : ℕ) → n < 10 ^ suc width → length (padded (suc width) n) ≡ suc width
unfolding padded
length-padded width n h = omega (
  arith,
  length-append (replicate (suc width - length (decimal n)) b'0') (decimal n),
  length-replicate (suc width - length (decimal n)) b'0',
  length-decimal n,
  digit_count-bound width (suc n) n h,
)

replicate-IsDigitChar : (z : ℕ) → All IsDigitChar (replicate z b'0')
replicate-IsDigitChar zero = tt
replicate-IsDigitChar (suc z) = (omega arith, replicate-IsDigitChar z)

pub padded-IsDigitChar : (width n : ℕ) → All IsDigitChar (padded width n)
unfolding padded
padded-IsDigitChar width n =
    All-append IsDigitChar (replicate (width - length (decimal n)) b'0') (decimal n)
      (replicate-IsDigitChar (width - length (decimal n))) (decimal-IsDigitChar n)

not_space : (c : ℕ) (s : Bytes) → IsDigitChar c → skip_c_spaces (c ∷ s) ≡ c ∷ s
unfolding skip_c_spaces is_c_space
not_space c s h = ground (arith, h)

not_sign :
    (c : ℕ) → IsDigitChar c → ((c == b'-') ≡ false) × ((c == b'+') ≡ false) × (is_digit c ≡ true)
unfolding is_digit
not_sign c h = (ground (arith, h), ground (arith, h), ground (arith, h))

-- A number that starts with a digit is read by its digits.
scan_int-digits :
    (width : ℕ) (digits rest : Bytes) (n : ℕ) (left : Bytes)
    → All IsDigitChar digits
    → 0 < length digits
    → scan_digits (suc width) 0 (digits ++ rest) ≡ (n, left)
    → scan_int (suc width) (digits ++ rest) ≡ some (pos n, left)
unfolding scan_int scan_signed scan_unsigned
scan_int-digits width [] rest n left h l e = absurd (omega (arith, l))
scan_int-digits width (c ∷ digits) rest n left h l e =
    let (minus, plus, digit) = not_sign c h.0 in
    rw (not_space c (digits ++ rest) h.0, minus, plus, digit, e) refl

pub scan_int-padded :
    (width n : ℕ) (rest : Bytes)
    → n < 10 ^ suc width
    → scan_int (suc width) (padded (suc width) n ++ rest) ≡ some (pos n, rest)
scan_int-padded width n rest h =
    scan_int-digits width (padded (suc width) n) rest n rest (padded-IsDigitChar (suc width) n)
      (omega (arith, length-padded width n h)) (scan_digits-padded width n rest h)
