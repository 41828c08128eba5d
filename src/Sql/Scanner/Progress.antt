-- ===== src/Sql/Scanner/Progress.antt =====
-- How much the scanner of src/execute.c consumes.
use frostlake_odbc.Base.{
  ℕ, ◌≤◌, ◌<◌, ◌≡◌, refl, ap, Option, Bool, true, false, some, none, [], ◌∷◌, ◌++◌, arith, Bytes,
  length, length-append, peek, ◌==◌, ◌&&◌, not, if◌then◌else◌,
}
use frostlake_odbc.Sql.Scanner.{
  is_name_char, name_rest, single_quoted, double_quoted, is_line_end, line_comment, past_mark,
  drop_one, skip_opening, skip,
}

-- `rest` is the end of `s`.
abbrev pub EndsIn : Bytes → Bytes → Type 0
EndsIn s rest = (front : Bytes) × (s ≡ front ++ rest)

EndsIn-cons : (c : ℕ) {s rest : Bytes} → EndsIn s rest → EndsIn (c ∷ s) rest
EndsIn-cons c (front, e) = (c ∷ front, ap (◌∷◌ c) e)

EndsIn-if : (b : Bool) {s x y : Bytes} → EndsIn s x → EndsIn s y → EndsIn s (if b then x else y)
EndsIn-if true p q = p
EndsIn-if false p q = q

EndsIn-drop_one : (s rest : Bytes) → EndsIn (drop_one s) rest → EndsIn s rest
EndsIn-drop_one [] rest p = p
EndsIn-drop_one (c ∷ s) rest p = EndsIn-cons c p

name_rest-EndsIn : (s : Bytes) → EndsIn s (name_rest s)
unfolding name_rest
name_rest-EndsIn [] = ([], refl)
name_rest-EndsIn (c ∷ s) =
    EndsIn-if (is_name_char c) (EndsIn-cons c (name_rest-EndsIn s)) ([], refl)

single_quoted-EndsIn : (s : Bytes) → EndsIn s (single_quoted s)
unfolding single_quoted
single_quoted-EndsIn [] = ([], refl)
single_quoted-EndsIn (c ∷ []) = EndsIn-if (c == 0) ([], refl) (c ∷ [], refl)
single_quoted-EndsIn (c ∷ d ∷ s) =
    let pair = EndsIn-cons c (EndsIn-cons d (single_quoted-EndsIn s)) in
    EndsIn-if (c == 0) ([], refl)
      (EndsIn-if (c == b'\\' && not (d == 0)) pair (
        EndsIn-if (c == b'\'') (EndsIn-if (d == b'\'') pair (c ∷ [], refl))
          (EndsIn-cons c (single_quoted-EndsIn (d ∷ s)))))

double_quoted-EndsIn : (s : Bytes) → EndsIn s (double_quoted s)
unfolding double_quoted
double_quoted-EndsIn [] = ([], refl)
double_quoted-EndsIn (c ∷ []) = (c ∷ [], refl)
double_quoted-EndsIn (c ∷ d ∷ s) =
    EndsIn-if (c == b'"')
      (EndsIn-if (d == b'"') (EndsIn-cons c (EndsIn-cons d (double_quoted-EndsIn s)))
        (c ∷ [], refl))
      (EndsIn-cons c (double_quoted-EndsIn (d ∷ s)))

line_comment-EndsIn : (s : Bytes) → EndsIn s (line_comment s)
unfolding line_comment
line_comment-EndsIn [] = ([], refl)
line_comment-EndsIn (c ∷ s) =
    EndsIn-if (is_line_end c) (c ∷ [], refl) (EndsIn-cons c (line_comment-EndsIn s))

past_mark-EndsIn : (a b : ℕ) (s : Bytes) → EndsIn s (past_mark a b s)
unfolding past_mark
past_mark-EndsIn a b [] = ([], refl)
past_mark-EndsIn a b (c ∷ []) = (c ∷ [], refl)
past_mark-EndsIn a b (c ∷ d ∷ s) =
    EndsIn-if _ (c ∷ d ∷ [], refl) (EndsIn-cons c (past_mark-EndsIn a b (d ∷ s)))

-- A position that the scanner answers, if it answers one, ends `s`.
data Answers (s : Bytes) : Option Bytes → Type 0 where
  nothing : Answers s none
  position : {rest : Bytes} → EndsIn s rest → Answers s (some rest)

Answers-if :
    (b : Bool) {s : Bytes} {x y : Option Bytes}
    → Answers s x
    → Answers s y
    → Answers s (if b then x else y)
Answers-if true p q = p
Answers-if false p q = q

Answers-some : {s rest : Bytes} {o : Option Bytes} → Answers s o → o ≡ some rest → EndsIn s rest
Answers-some nothing e = cc
Answers-some (position {rest = r} (front, p)) e = (front, cc)

skip_opening-Answers : (c d : ℕ) (s : Bytes) → Answers s (skip_opening c d s)
unfolding skip_opening
skip_opening-Answers c d s = Answers-if _ (position (name_rest-EndsIn s)) (
    Answers-if _ (position (single_quoted-EndsIn s)) (
      Answers-if _ (position (double_quoted-EndsIn s)) (
        Answers-if _ (position (EndsIn-drop_one s _ (line_comment-EndsIn (drop_one s)))) (
          Answers-if _ (position (EndsIn-drop_one s _ (past_mark-EndsIn b'*' b'/' (drop_one s)))) (
            Answers-if _ (position (EndsIn-drop_one s _ (past_mark-EndsIn b'$' b'$' (drop_one s))))
              nothing)))))

-- What the scanner skips is a prefix of the text with at least one character, so each round of
-- a loop over it moves forward.
pub skip-EndsIn :
    (s : Bytes) {rest : Bytes}
    → skip s ≡ some rest
    → (front : Bytes) × (s ≡ front ++ rest) × (1 ≤ length front)
unfolding skip
skip-EndsIn [] e = cc
skip-EndsIn (c ∷ s) e =
    let (front, q) = Answers-some (skip_opening-Answers c (peek s) s) e in
    (c ∷ front, ap (◌∷◌ c) q, omega arith)

pub length-skip : (s : Bytes) {rest : Bytes} → skip s ≡ some rest → length rest < length s
length-skip s {rest} e =
    let (front, q, h) = skip-EndsIn s e in omega (arith, ap length q, length-append front rest)
