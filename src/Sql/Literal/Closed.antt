-- ===== src/Sql/Literal/Closed.antt =====
-- Literals that src/execute.c writes, through its scanner.
use frostlake_odbc.Base.{
  ℕ, ◌/◌, ◌%◌, ◌≡◌, ◌≢◌, refl, ◌∙◌, some, [], ◌∷◌, ◌++◌, append_assoc, arith, Bytes, peek, All, ◌<◌,
}
use frostlake_odbc.Sql.Scanner.{
  single_quoted, skip_opening, skip, name_rest, is_name_start, is_name_char,
}
use frostlake_odbc.Sql.Literal.{
  literal_byte, literal_body, append_string_literal, upper_hex, binary_body, append_binary_literal,
}

single_quoted-plain :
    (c : ℕ) (s : Bytes) → c ≢ 0 → c ≢ b'\'' → c ≢ b'\\' → single_quoted (c ∷ s) ≡ single_quoted s
unfolding single_quoted
single_quoted-plain c [] z p q = ground arith
single_quoted-plain c (d ∷ s) z p q = ground arith

single_quoted-close : (rest : Bytes) → peek rest ≢ b'\'' → single_quoted (b'\'' ∷ rest) ≡ rest
unfolding single_quoted
single_quoted-close [] h = refl
single_quoted-close (d ∷ s) h = ground arith

single_quoted-literal_byte :
    (c : ℕ) (s : Bytes) → c ≢ 0 → single_quoted (literal_byte c ++ s) ≡ single_quoted s
unfolding literal_byte
single_quoted-literal_byte c s z = ground (arith, single_quoted-plain c s, single_quoted-pair s)
  where
    single_quoted-pair :
        (s : Bytes)
        → (single_quoted (b'\'' ∷ b'\'' ∷ s) ≡ single_quoted s)
          × (single_quoted (b'\\' ∷ b'\\' ∷ s) ≡ single_quoted s)
    single_quoted-pair s = unfold single_quoted in (refl, refl)

single_quoted-literal_body :
    (text rest : Bytes)
    → All (λ c. c ≢ 0) text
    → peek rest ≢ b'\''
    → single_quoted (literal_body text ++ (b'\'' ∷ rest)) ≡ rest
unfolding literal_body
single_quoted-literal_body [] rest z h = single_quoted-close rest h
single_quoted-literal_body (c ∷ text) rest z h =
    rw append_assoc
      (single_quoted-literal_byte c _ z.0 ∙ single_quoted-literal_body text rest z.1 h)

-- The scanner steps over the literal of a text without a NUL in one go, to exactly what stands
-- behind it, unless another quote follows.
pub skip-append_string_literal :
    (text rest : Bytes)
    → All (λ c. c ≢ 0) text
    → peek rest ≢ b'\''
    → skip (append_string_literal [] text ++ rest) ≡ some rest
unfolding append_string_literal skip skip_opening is_name_start
skip-append_string_literal text rest z h =
    rw (append_assoc, single_quoted-literal_body text rest z h)

upper_hex-plain :
    (n : ℕ) → n < 16 → (upper_hex n ≢ 0) × (upper_hex n ≢ b'\'') × (upper_hex n ≢ b'\\')
unfolding upper_hex
upper_hex-plain n h = ground arith

single_quoted-binary_body :
    (bytes rest : Bytes)
    → All (λ c. c < 256) bytes
    → peek rest ≢ b'\''
    → single_quoted (binary_body bytes ++ (b'\'' ∷ rest)) ≡ rest
unfolding binary_body
single_quoted-binary_body [] rest w h = single_quoted-close rest h
single_quoted-binary_body (c ∷ bytes) rest w h =
    let high = upper_hex-plain (c / 16) (omega arith) in
    let low = upper_hex-plain (c % 16) (omega arith) in
    single_quoted-plain _ _ high.0 high.1 high.2
    ∙ single_quoted-plain _ _ low.0 low.1 low.2
    ∙ single_quoted-binary_body bytes rest w.1 h

-- So is the literal of any bytes bound as binary, behind the name X that opens it.
pub skip-append_binary_literal :
    (bytes rest : Bytes)
    → All (λ c. c < 256) bytes
    → peek rest ≢ b'\''
    → skip (append_binary_literal [] bytes ++ rest)
        ≡ some (b'\'' ∷ (binary_body bytes ++ (b'\'' ∷ rest)))
      × (skip (b'\'' ∷ (binary_body bytes ++ (b'\'' ∷ rest))) ≡ some rest)
unfolding append_binary_literal skip skip_opening is_name_start is_name_char name_rest
skip-append_binary_literal bytes rest w h =
    (rw append_assoc refl, rw (single_quoted-binary_body bytes rest w h))
