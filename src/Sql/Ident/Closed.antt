-- ===== src/Sql/Ident/Closed.antt =====
-- Names that src/util.c puts into a statement, through the scanner of src/execute.c.
use frostlake_odbc.Base.{
  ℕ, ◌≡◌, ◌≢◌, refl, ◌∙◌, ap, true, false, some, [], ◌∷◌, ◌++◌, append_assoc, arith, Bytes, peek,
}
use frostlake_odbc.Sql.Scanner.{
  double_quoted, skip_opening, skip, name_rest, is_name_start, is_name_char,
}
use frostlake_odbc.Sql.Ident.{
  all_name_chars, ident_is_bare, quoted_interior, ident_is_quoted, double_quotes, append_ident,
}

name_rest-append :
    (s rest : Bytes)
    → all_name_chars s ≡ true
    → is_name_char (peek rest) ≡ false
    → name_rest (s ++ rest) ≡ rest
unfolding name_rest all_name_chars
name_rest-append [] [] w h = refl
name_rest-append [] (c ∷ rest) w h = rw h
name_rest-append (c ∷ s) rest w h = ground (arith, name_rest-append s rest)

skip-bare :
    (name rest : Bytes)
    → ident_is_bare name ≡ true
    → is_name_char (peek rest) ≡ false
    → skip (name ++ rest) ≡ some rest
unfolding ident_is_bare skip skip_opening
skip-bare [] rest w h = cc
skip-bare (c ∷ s) rest w h = ground (arith, name_rest-append s rest)

double_quoted-plain : (c : ℕ) (s : Bytes) → c ≢ b'"' → double_quoted (c ∷ s) ≡ double_quoted s
unfolding double_quoted
double_quoted-plain c [] p = refl
double_quoted-plain c (d ∷ s) p = ground arith

double_quoted-close : (rest : Bytes) → peek rest ≢ b'"' → double_quoted (b'"' ∷ rest) ≡ rest
unfolding double_quoted
double_quoted-close [] h = refl
double_quoted-close (d ∷ s) h = ground arith

double_quoted-pair : (s : Bytes) → double_quoted (b'"' ∷ b'"' ∷ s) ≡ double_quoted s
unfolding double_quoted
double_quoted-pair s = refl

double_quoted-interior :
    (s rest : Bytes)
    → quoted_interior s ≡ true
    → peek rest ≢ b'"'
    → double_quoted (s ++ rest) ≡ rest
unfolding quoted_interior
double_quoted-interior [] rest w h = cc
double_quoted-interior (c ∷ []) rest w h = ground (arith, double_quoted-close rest)
double_quoted-interior (c ∷ d ∷ s) rest w h = ground (
  arith,
  double_quoted-interior s rest,
  double_quoted-interior (d ∷ s) rest,
  double_quoted-pair (s ++ rest),
  double_quoted-plain c (d ∷ s ++ rest),
)

double_quoted-double_quotes :
    (s rest : Bytes) → peek rest ≢ b'"' → double_quoted (double_quotes s ++ (b'"' ∷ rest)) ≡ rest
unfolding double_quotes
double_quoted-double_quotes [] rest h = double_quoted-close rest h
double_quoted-double_quotes (c ∷ s) rest h = ground (
  arith,
  double_quoted-double_quotes s rest,
  double_quoted-pair (double_quotes s ++ (b'"' ∷ rest)),
  double_quoted-plain c (double_quotes s ++ (b'"' ∷ rest)),
)

skip-quote : (s : Bytes) → skip (b'"' ∷ s) ≡ some (double_quoted s)
unfolding skip skip_opening is_name_start
skip-quote s = refl

skip-quoted :
    (name rest : Bytes)
    → ident_is_quoted name ≡ true
    → peek rest ≢ b'"'
    → skip (name ++ rest) ≡ some rest
unfolding ident_is_quoted
skip-quoted [] rest w h = cc
skip-quoted (c ∷ s) rest w h = ground (arith, skip-quote (s ++ rest), double_quoted-interior s rest)

skip-wrapped :
    (name rest : Bytes)
    → peek rest ≢ b'"'
    → skip ((b'"' ∷ (double_quotes name ++ (b'"' ∷ []))) ++ rest) ≡ some rest
skip-wrapped name rest h =
    rw append_assoc (skip-quote _ ∙ ap some (double_quoted-double_quotes name rest h))

-- Whatever the name, what is appended for it is one token that the scanner steps over in one go,
-- to exactly what stands behind it, where neither a quote nor a name character follows.
pub skip-append_ident :
    (name rest : Bytes) {out : Bytes}
    → append_ident [] name ≡ some out
    → is_name_char (peek rest) ≡ false
    → peek rest ≢ b'"'
    → skip (out ++ rest) ≡ some rest
unfolding append_ident
skip-append_ident [] rest e p q = cc
skip-append_ident (c ∷ s) rest {out} e p q =
    ground (arith, skip-quoted (c ∷ s) rest, skip-bare (c ∷ s) rest, skip-wrapped (c ∷ s) rest q)
