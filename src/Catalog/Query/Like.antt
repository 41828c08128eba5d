-- ===== src/Catalog/Query/Like.antt =====
-- The conditions that src/catalog.c puts into a statement, through the scanner of src/execute.c.
use frostlake_odbc.Base.{
  ℕ, ◌≡◌, ◌≢◌, refl, ap, sym, ◌∙◌, arith, some, [], ◌∷◌, ◌++◌, Bool, true, false, append_assoc,
  append-nil, Bytes, codes, peek, All, ◌||◌, ◌==◌, if◌then◌else◌,
}
use frostlake_odbc.Sql.Scanner.{skip}
use frostlake_odbc.Sql.Literal.{literal_byte, literal_body, append_string_literal}
use frostlake_odbc.Sql.Literal.Closed.{skip-append_string_literal}
use frostlake_odbc.Catalog.Query.{like_body, append_like}

byte_cases :
    (buf : Bytes) (c : ℕ) (quote backslash : Bool)
    → (quote ≡ true → c ≡ b'\'')
    → (backslash ≡ true → c ≡ b'\\')
    → (if quote || backslash then buf ++ (c ∷ []) else buf) ++ (c ∷ [])
      ≡ buf ++ (if quote then b'\'' ∷ c ∷ [] else if backslash then b'\\' ∷ c ∷ [] else c ∷ [])
byte_cases buf c true backslash q b =
    append_assoc buf (c ∷ []) (c ∷ []) ∙ ap (λ n. buf ++ (n ∷ c ∷ [])) (q refl)
byte_cases buf c false true q b =
    append_assoc buf (c ∷ []) (c ∷ []) ∙ ap (λ n. buf ++ (n ∷ c ∷ [])) (b refl)
byte_cases buf c false false q b = refl

like_body-literal_body : (pattern buf : Bytes) → like_body buf pattern ≡ buf ++ literal_body pattern
unfolding like_body literal_body
like_body-literal_body [] buf = sym (append-nil buf)
like_body-literal_body (c ∷ pattern) buf =
    like_body-literal_body pattern _
    ∙ ap (λ b. b ++ literal_body pattern) byte
    ∙ append_assoc buf (literal_byte c) (literal_body pattern)
  where
    byte :
        (if c == b'\'' || c == b'\\' then buf ++ (c ∷ []) else buf) ++ (c ∷ [])
        ≡ buf ++ literal_byte c
    byte =
        unfold literal_byte in
        byte_cases buf c (c == b'\'') (c == b'\\') (λ e. ground (arith, e)) (λ e. ground (arith, e))

regroup :
    (b a i l p e : Bytes) → ((((b ++ a) ++ i) ++ l) ++ p) ++ e ≡ b ++ (a ++ (i ++ (l ++ (p ++ e))))
regroup b a i l p e =
    append_assoc ((((b ++ a) ++ i) ++ l)) p e
    ∙ append_assoc ((b ++ a) ++ i) l (p ++ e)
    ∙ append_assoc (b ++ a) i (l ++ (p ++ e))
    ∙ append_assoc b a (i ++ (l ++ (p ++ e)))

-- For a pattern without a NUL, the condition that is appended is the column's name, LIKE, and one literal
-- that the scanner steps over in one go, to exactly what stands behind it, unless that is another
-- quote.
pub append_like-literal :
    (buf identifier pattern rest : Bytes)
    → All (λ c. c ≢ 0) pattern
    → peek rest ≢ b'\''
    → (append_like buf identifier pattern
        ≡ buf
          ++ (codes " AND "
              ++ (identifier ++ (codes " LIKE " ++ append_string_literal [] pattern))))
      × (skip (append_string_literal [] pattern ++ rest) ≡ some rest)
unfolding append_like
append_like-literal buf identifier pattern rest z h =
    (split, skip-append_string_literal pattern rest z h)
  where
    split :
        like_body (((buf ++ codes " AND ") ++ identifier) ++ codes " LIKE '") pattern ++ codes "'"
        ≡ buf
          ++ (codes " AND " ++ (identifier ++ (codes " LIKE " ++ append_string_literal [] pattern)))
    split =
        unfold append_string_literal in
        rw
          (like_body-literal_body pattern
            (((buf ++ codes " AND ") ++ identifier) ++ codes " LIKE '"))
          (regroup buf (codes " AND ") identifier (codes " LIKE '") (literal_body pattern)
            (codes "'"))
