-- ===== src/Json/Printer/Scalars.antt =====
-- What the reader makes of the text of a value that holds no other value.
use frostlake_odbc.Base.{
  ℕ, zero, suc, ◌≡◌, refl, ◌∙◌, ap, Option, Bool, true, false, ◌==◌, some, none, [], ◌∷◌, ◌++◌,
  append_assoc, append-nil, arith, Bytes, codes, All, peek, strip_prefix, ◌≢◌,
}
use frostlake_odbc.Json.Text.{Parsed, ok, ◌>>=◌, escape, parse_string_body}
use frostlake_odbc.Json.Text.RoundTrip.{parse_string_body-escape}
use frostlake_odbc.Json.Value.{
  Json, Items, Fields, null, bool, number, string, array, object, nil, cons, end, field,
}
use frostlake_odbc.Json.Reader.{
  is_ws, skip_ws, is_number_char, number_tail, nonempty_number, parse_number, parse_literal,
  parse_array, expect, parse_key, parse_object, parse_scalar, parse_switch, parse_value,
}
use frostlake_odbc.Json.Printer.{quote, bool_text, print}

-- A number's text is one or more number characters.
abbrev pub IsLexeme : Bytes → Type 0
IsLexeme lexeme = (lexeme ≢ []) × All (λ c. is_number_char c ≡ true) lexeme

abbrev mutual
  pub HasLexemes : Json → Type 0
  HasLexemes (number lexeme) = IsLexeme lexeme
  HasLexemes (array vs) = HasLexemesItems vs
  HasLexemes (object fs) = HasLexemesFields fs
  HasLexemes _ = Unit

  pub HasLexemesItems : Items → Type 0
  HasLexemesItems nil = Unit
  HasLexemesItems (cons v vs) = HasLexemes v × HasLexemesItems vs

  pub HasLexemesFields : Fields → Type 0
  HasLexemesFields end = Unit
  HasLexemesFields (field k v fs) = HasLexemes v × HasLexemesFields fs

-- What stands behind a value does not carry on its number.
abbrev pub Ends : Bytes → Type 0
Ends rest = is_number_char (peek rest) ≡ false

number_tail-append :
    (acc lexeme rest : Bytes)
    → All (λ c. is_number_char c ≡ true) lexeme
    → Ends rest
    → number_tail acc (lexeme ++ rest) ≡ (acc ++ lexeme, rest)
unfolding number_tail
number_tail-append acc [] [] h e = rw append-nil
number_tail-append acc [] (c ∷ rest) h e = rw (e, append-nil)
number_tail-append acc (c ∷ lexeme) rest h e = rw h.0 (
    number_tail-append (acc ++ c ∷ []) lexeme rest h.1 e
    ∙ ap (λ t. (t, rest)) (append_assoc acc (c ∷ []) lexeme))

parse_number-append :
    (lexeme rest : Bytes)
    → IsLexeme lexeme
    → Ends rest
    → parse_number (lexeme ++ rest) ≡ ok (number lexeme) rest
unfolding parse_number nonempty_number
parse_number-append [] rest h e = absurd (h.0 refl)
parse_number-append (c ∷ lexeme) rest h e = rw (number_tail-append [] (c ∷ lexeme) rest h.1 e)

parse_scalar-number_char :
    (c : ℕ) (s : Bytes) → is_number_char c ≡ true → parse_scalar c s ≡ parse_number (c ∷ s)
unfolding parse_scalar is_number_char
parse_scalar-number_char c s h = ground arith

parse_switch-number :
    (nested : Option (Bytes → Parsed Json)) (fuel c : ℕ) (s : Bytes)
    → is_number_char c ≡ true
    → parse_switch nested fuel (c ∷ s) ≡ parse_number (c ∷ s)
unfolding parse_switch is_number_char
parse_switch-number none fuel c s h = ground (arith, parse_scalar-number_char c s h)
parse_switch-number (some value) fuel c s h = ground (arith, parse_scalar-number_char c s h)

skip_ws-number : (c : ℕ) (s : Bytes) → is_number_char c ≡ true → skip_ws (c ∷ s) ≡ c ∷ s
unfolding skip_ws is_ws is_number_char
skip_ws-number c s h = ground arith

parse_value-switch :
    (room fuel : ℕ) (s : Bytes)
    → (nested : Option (Bytes → Parsed Json)) × (parse_value room fuel s
        ≡ parse_switch nested fuel (skip_ws s))
unfolding parse_value
parse_value-switch zero fuel s = (none, refl)
parse_value-switch (suc room) fuel s = (some (parse_value room fuel), refl)

pub parse_value-number :
    (room fuel : ℕ) (lexeme rest : Bytes)
    → IsLexeme lexeme
    → Ends rest
    → parse_value room fuel (lexeme ++ rest) ≡ ok (number lexeme) rest
parse_value-number room fuel [] rest h e = absurd (h.0 refl)
parse_value-number room fuel (c ∷ lexeme) rest h e =
    let (nested, q) = parse_value-switch room fuel (c ∷ lexeme ++ rest) in
    q
    ∙ ap (parse_switch nested fuel) (skip_ws-number c (lexeme ++ rest) h.1.0)
    ∙ parse_switch-number nested fuel c (lexeme ++ rest) h.1.0
    ∙ parse_number-append (c ∷ lexeme) rest h e

pub bind-ok {ℓ κ} :
    {A : Type ℓ} {B : Type κ} {p : Parsed A} {a : A} {r : Bytes} (f : A → Bytes → Parsed B)
    → p ≡ ok a r
    → (p >>= f) ≡ f a r
bind-ok f e = ap (λ q. q >>= f) e

parse_quoted :
    (text rest : Bytes) → parse_string_body (escape text ++ (b'"' ∷ []) ++ rest) ≡ ok text rest
parse_quoted text rest = rw append_assoc (parse_string_body-escape text rest)

pub parse_value-word :
    (room fuel c : ℕ) (s rest : Bytes) (node : Json)
    → parse_scalar c s ≡ ok node rest
    → skip_ws (c ∷ s) ≡ c ∷ s
    → (c == b'{') ≡ false
    → (c == b'[') ≡ false
    → parse_value room fuel (c ∷ s) ≡ ok node rest
unfolding parse_value parse_switch
parse_value-word zero fuel c s rest node e w p q = rw w (rw (p, q) e)
parse_value-word (suc room) fuel c s rest node e w p q = rw w (rw (p, q) e)

pub print-first :
    (v : Json) (s : Bytes)
    → HasLexemes v
    → (skip_ws (print v ++ s) ≡ print v ++ s) × (strip_prefix (b']' ∷ []) (print v ++ s) ≡ none)
unfolding print skip_ws is_ws strip_prefix
print-first null s h = (refl, refl)
print-first (bool true) s h = (refl, refl)
print-first (bool false) s h = (refl, refl)
print-first (number []) s h = absurd (h.0 refl)
print-first (number (c ∷ l)) s h = unfold is_number_char in ground arith
print-first (string t) s h = (refl, refl)
print-first (array nil) s h = (refl, refl)
print-first (array (cons v vs)) s h = (refl, refl)
print-first (object end) s h = (refl, refl)
print-first (object (field k v vs)) s h = (refl, refl)

pub print-text :
    (text rest : Bytes) (room fuel : ℕ)
    → parse_value room fuel (quote text ++ rest) ≡ ok (string text) rest
print-text text rest room fuel =
    parse_value-word room fuel b'"' _ rest (string text)
      (unfold parse_scalar in bind-ok (λ t r. ok (string t) r) (parse_quoted text rest))
      (unfold skip_ws is_ws in refl) refl refl

pub parse_key-quote : (k s : Bytes) → parse_key (quote k ++ (b':' ∷ s)) ≡ ok k s
unfolding parse_key expect strip_prefix skip_ws is_ws
parse_key-quote k s = bind-ok _ (parse_quoted k (b':' ∷ s))

pub Ends-closers :
    (is_number_char b']' ≡ false) × (is_number_char b'}' ≡ false) × (is_number_char b',' ≡ false)
unfolding is_number_char
Ends-closers = (refl, refl, refl)

module _ (room fuel : ℕ) (rest : Bytes) where
  pub parse_value-null : parse_value room fuel (codes "null" ++ rest) ≡ ok null rest
  parse_value-null =
      parse_value-word room fuel b'n' _ rest null
        (unfold parse_scalar parse_literal strip_prefix in refl) (unfold skip_ws is_ws in refl) refl
        refl

  parse_value-true : parse_value room fuel (codes "true" ++ rest) ≡ ok (bool true) rest
  parse_value-true =
      parse_value-word room fuel b't' _ rest (bool true)
        (unfold parse_scalar parse_literal strip_prefix in refl) (unfold skip_ws is_ws in refl) refl
        refl

  parse_value-false : parse_value room fuel (codes "false" ++ rest) ≡ ok (bool false) rest
  parse_value-false =
      parse_value-word room fuel b'f' _ rest (bool false)
        (unfold parse_scalar parse_literal strip_prefix in refl) (unfold skip_ws is_ws in refl) refl
        refl

  pub parse_value-array :
      parse_value (suc room) fuel (b'[' ∷ rest) ≡ parse_array (parse_value room fuel) fuel rest
  unfolding parse_value parse_switch skip_ws is_ws
  parse_value-array = refl

  pub parse_value-object :
      parse_value (suc room) fuel (b'{' ∷ rest) ≡ parse_object (parse_value room fuel) fuel rest
  unfolding parse_value parse_switch skip_ws is_ws
  parse_value-object = refl

pub parse_value-bool :
    (b : Bool) (room fuel : ℕ) (rest : Bytes)
    → parse_value room fuel (bool_text b ++ rest) ≡ ok (bool b) rest
parse_value-bool true room fuel rest = parse_value-true room fuel rest
parse_value-bool false room fuel rest = parse_value-false room fuel rest

module _ (value : Bytes → Parsed Json) (fuel : ℕ) (rest : Bytes) where
  pub parse_array-nil : parse_array value fuel (b']' ∷ rest) ≡ ok (array nil) rest
  unfolding parse_array strip_prefix skip_ws is_ws
  parse_array-nil = refl

  pub parse_object-end : parse_object value fuel (b'}' ∷ rest) ≡ ok (object end) rest
  unfolding parse_object strip_prefix skip_ws is_ws
  parse_object-end = refl
