-- ===== src/Proto/Request/Decimal.antt =====
-- The digits that `%lld` and its kin print, as src/proto.c and src/execute.c use them.
use frostlake_odbc.Base.{
  ℕ, zero, suc, ◌+◌, ◌/◌, ◌%◌, ◌^◌, ◌<◌, ◌≤◌, true, ◌≡◌, refl, [], ◌∷◌, ◌++◌, ltb, if◌then◌else◌,
  Bytes, arith, Bool-cases, inl, inr, All, length,
}
use frostlake_odbc.Proto.Request.{decimal_loop, decimal}

abbrev pub IsDigitChar : ℕ → Type 0
IsDigitChar c = (b'0' ≤ c) × (c ≤ b'9')

decimal_loop-IsDigitChar :
    (fuel n : ℕ) (later : Bytes)
    → All IsDigitChar later
    → All IsDigitChar (decimal_loop fuel n later)
unfolding decimal_loop
decimal_loop-IsDigitChar zero n later h = h
decimal_loop-IsDigitChar (suc fuel) n later h = elim (Bool-cases (ltb n 10)) [
  | inl e ↦ rw e (omega arith, h)
  | inr e ↦ rw e (decimal_loop-IsDigitChar fuel (n / 10) _ (omega arith, h))
]

pub decimal-IsDigitChar : (n : ℕ) → All IsDigitChar (decimal n)
unfolding decimal
decimal-IsDigitChar n = decimal_loop-IsDigitChar (suc n) n [] tt

-- How many digits the loop puts in front.
unfoldable pub digit_count : ℕ → ℕ → ℕ
digit_count zero n = 0
digit_count (suc fuel) n = let more = digit_count fuel (n / 10) in if ltb n 10 then 1 else suc more

pub decimal_loop-append :
    (fuel n : ℕ) (later rest : Bytes)
    → decimal_loop fuel n later ++ rest ≡ decimal_loop fuel n (later ++ rest)
unfolding decimal_loop
decimal_loop-append zero n later rest = refl
decimal_loop-append (suc fuel) n later rest = elim (Bool-cases (ltb n 10)) [
  | inl e ↦ rw e refl
  | inr e ↦ rw e (decimal_loop-append fuel (n / 10) _ rest)
]

length-decimal_loop :
    (fuel n : ℕ) (later : Bytes)
    → length (decimal_loop fuel n later) ≡ digit_count fuel n + length later
unfolding decimal_loop digit_count
length-decimal_loop zero n later = omega arith
length-decimal_loop (suc fuel) n later = elim (Bool-cases (ltb n 10)) [
  | inl e ↦ rw e (omega arith)
  | inr e ↦ rw e (omega (arith, length-decimal_loop fuel (n / 10) ((b'0' + n % 10) ∷ later)))
]

pub length-decimal : (n : ℕ) → length (decimal n) ≡ digit_count (suc n) n
unfolding decimal
length-decimal n = omega (arith, length-decimal_loop (suc n) n [])

-- A number below a power of ten has at most so many digits, and one at least.
pub digit_count-bound : (width fuel n : ℕ) → n < 10 ^ suc width → digit_count fuel n ≤ suc width
unfolding digit_count
digit_count-bound width zero n h = omega arith
digit_count-bound zero (suc fuel) n h =
    let e : ltb n 10 ≡ true = ground (arith, h) in rw e (omega arith)
digit_count-bound (suc width) (suc fuel) n h = elim (Bool-cases (ltb n 10)) [
  | inl e ↦ rw e (omega arith)
  | inr e ↦ rw e (omega (arith, digit_count-bound width fuel (n / 10) (ground (arith, h))))
]

pub digit_count-positive : (n : ℕ) → 0 < digit_count (suc n) n
unfolding digit_count
digit_count-positive n = elim (Bool-cases (ltb n 10)) [
  | inl e ↦ rw e (omega arith)
  | inr e ↦ rw e (omega arith)
]
