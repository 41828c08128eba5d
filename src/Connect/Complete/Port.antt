-- ===== src/Connect/Complete/Port.antt =====
-- `parse_port` of src/connect.c on the text that the driver prints for a port.
use frostlake_odbc.Base.{
  ℕ, zero, suc, ◌+◌, ◌-◌, ◌*◌, ◌/◌, ◌%◌, ◌<◌, ◌≤◌, ◌≡◌, ap, ◌∙◌, refl, [], ◌∷◌, ltb, some, Bytes,
  arith, Bool-cases, inl, inr, All,
}
use frostlake_odbc.Sql.Scanner.{is_digit}
use frostlake_odbc.Proto.Request.{decimal_loop, decimal}
use frostlake_odbc.Proto.Request.Decimal.{IsDigitChar, decimal-IsDigitChar}
use frostlake_odbc.Connect.Text.{
  is_pad, skip_pads, all_pads, trim_pads, port_digits, at_least_one, port_of, parse_port,
}

port_digits-digit :
    (n d : ℕ) (s : Bytes)
    → d < 10
    → n * 10 + d ≤ 65535
    → port_digits n ((b'0' + d) ∷ s) ≡ port_digits (n * 10 + d) s
unfolding port_digits is_digit
port_digits-digit n d s h l = let e : b'0' + d - b'0' ≡ d = omega arith in ground (arith, e)

port_digits-decimal_loop :
    (fuel n : ℕ) (later : Bytes)
    → n < fuel
    → n ≤ 65535
    → port_digits 0 (decimal_loop fuel n later) ≡ port_digits n later
unfolding decimal_loop
port_digits-decimal_loop zero n later h l = absurd (omega arith)
port_digits-decimal_loop (suc fuel) n later h l = elim (Bool-cases (ltb n 10)) [
  | inl e ↦
      rw (e, decimal_loop)
        (port_digits-digit 0 (n % 10) later (omega arith) (omega arith)
          ∙ ap (λ m. port_digits m later) (ground (arith, e)))
  | inr e ↦
      rw (e, decimal_loop)
        (port_digits-decimal_loop fuel (n / 10) _ (ground (arith, e)) (omega arith)
          ∙ port_digits-digit (n / 10) (n % 10) later (omega arith) (omega arith)
          ∙ ap (λ m. port_digits m later) (omega arith))
]

skip_pads-digits : (s : Bytes) → All IsDigitChar s → skip_pads s ≡ s
unfolding skip_pads is_pad
skip_pads-digits [] h = refl
skip_pads-digits (c ∷ s) h = ground arith

trim_pads-digits : (s : Bytes) → All IsDigitChar s → trim_pads s ≡ s
unfolding trim_pads all_pads is_pad
trim_pads-digits [] h = refl
trim_pads-digits (c ∷ s) h = ground (arith, trim_pads-digits s h.1)

port_of-digits : (s : Bytes) (n : ℕ) → 0 < n → port_digits 0 s ≡ some n → port_of s ≡ some n
unfolding port_of at_least_one
port_of-digits [] n h e = unfold port_digits in ground arith
port_of-digits (c ∷ s) zero h e = absurd (omega (arith, h))
port_of-digits (c ∷ s) (suc n) h e = rw e refl

pub parse_port-decimal :
    (port : ℕ) → 0 < port → port ≤ 65535 → parse_port (decimal port) ≡ some port
unfolding parse_port
parse_port-decimal port h l =
    rw
      (
        skip_pads-digits (decimal port) (decimal-IsDigitChar port),
        trim_pads-digits (decimal port) (decimal-IsDigitChar port),
      )
      (port_of-digits (decimal port) port h read)
  where
    read : port_digits 0 (decimal port) ≡ some port
    read = unfold decimal port_digits in port_digits-decimal_loop (suc port) port [] (omega arith) l
