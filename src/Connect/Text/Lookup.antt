-- ===== src/Connect/Text/Lookup.antt =====
-- `conn_str_get` of src/connect.c against a list of attributes.
use frostlake_odbc.Base.{
  ℕ, zero, suc, ◌≡◌, ◌≢◌, ◌≤◌, ◌<◌, refl, ap, ◌∙◌, arith, Bool, true, false, Option, none, some,
  List, [], ◌∷◌, ◌++◌, ◌==◌, if◌then◌else◌, Bytes, All, length, length-append,
}
use frostlake_odbc.Response.Types.{starts_ignoring_case, equal_ignoring_case}
use frostlake_odbc.Connect.Text.{
  span_to, skip_separators, read_value, next_pair, is_key, on_pair, get_from, conn_str_get,
}

-- An attribute, and whether its value stands in braces.
pub record Attribute : Type 0 where
  pub key : Bytes
  pub text : Bytes
  pub braced : Bool

unfoldable pub value_text : Bool → Bytes → Bytes → Bytes
value_text true text rest = b'{' ∷ (text ++ (b'}' ∷ (b';' ∷ rest)))
value_text false text rest = text ++ (b';' ∷ rest)

unfoldable pub conn_text : List Attribute → Bytes
conn_text [] = []
conn_text (a ∷ attributes) = a.key ++ (b'=' ∷ value_text a.braced a.text (conn_text attributes))

-- The first attribute with the key, whatever its case.
unfoldable pub find_attribute : Bytes → List Attribute → Option Bytes
find_attribute key [] = none
find_attribute key (a ∷ attributes) =
    if equal_ignoring_case key a.key then some a.text else find_attribute key attributes

abbrev pub IsKeyChar : ℕ → Type 0
IsKeyChar c = (c ≢ b'=') × (c ≢ b';') × (c ≢ b' ')

-- A value in braces has no closing brace in it; any other has no semicolon, and no opening brace at
-- its front.
unfoldable pub IsValue : Bool → Bytes → Type 0
IsValue true text = All (λ c. c ≢ b'}') text
IsValue false text = All (λ c. (c ≢ b';') × (c ≢ b'{')) text

unfoldable pub IsAttribute : Attribute → Type 0
IsAttribute a = All IsKeyChar a.key × (0 < length a.key) × IsValue a.braced a.text

span_to-front :
    (mark : ℕ) (xs rest : Bytes)
    → All (λ c. c ≢ mark) xs
    → span_to mark (xs ++ (mark ∷ rest)) ≡ (xs, mark ∷ rest)
unfolding span_to
span_to-front mark [] rest h = ground arith
span_to-front mark (c ∷ xs) rest h = rw (span_to-front mark xs rest h.1) (ground (arith, h.0))

span_to-end : (s : Bytes) → All (λ c. c ≢ b';') s → span_to b';' s ≡ (s, [])
unfolding span_to
span_to-end [] h = refl
span_to-end (c ∷ s) h = rw (span_to-end s h.1) (ground (arith, h.0))

All-map : {P Q : ℕ → Type 0} (xs : Bytes) → ((c : ℕ) → P c → Q c) → All P xs → All Q xs
All-map [] f h = tt
All-map (c ∷ xs) f h = (f c h.0, All-map xs f h.1)

is_key-equal :
    (key this rest : Bytes) → is_key key (this ++ (b'=' ∷ rest)) this ≡ equal_ignoring_case key this
unfolding is_key starts_ignoring_case equal_ignoring_case
is_key-equal [] [] rest = refl
is_key-equal [] (c ∷ this) rest = ground arith
is_key-equal (w ∷ key) [] rest = ground arith
is_key-equal (w ∷ key) (c ∷ this) rest = ground (arith, is_key-equal key this rest)

read_value-text :
    (braced : Bool) (text rest : Bytes)
    → IsValue braced text
    → ((read_value (value_text braced text rest)).0 ≡ text)
      × (next_pair (read_value (value_text braced text rest)).1 ≡ rest)
unfolding read_value value_text next_pair IsValue
read_value-text true text rest h =
    rw (span_to-front b'}' text (b';' ∷ rest) h) (refl, unfold span_to in refl)
read_value-text false [] rest h = unfold span_to in (refl, refl)
read_value-text false (c ∷ text) rest h =
    rw (unbraced, span_to-front b';' (c ∷ text) rest no_end) (refl, refl)
  where
    unbraced : (c == b'{') ≡ false
    unbraced = ground (arith, h.0.1)

    no_end : All (λ d. d ≢ b';') (c ∷ text)
    no_end = All-map (c ∷ text) (λ d k. k.0) h

skip_separators-key : (c : ℕ) (s : Bytes) → IsKeyChar c → skip_separators (c ∷ s) ≡ c ∷ s
unfolding skip_separators
skip_separators-key c s h = ground (arith, h.1, h.2)

on_pair-attribute :
    (next : Bytes → Option Bytes) (key this : Bytes) (braced : Bool) (text rest : Bytes)
    → IsValue braced text
    → on_pair next key
        (this ++ (b'=' ∷ value_text braced text rest))
        (this, b'=' ∷ value_text braced text rest)
      ≡ (if equal_ignoring_case key this then some text else next rest)
unfolding on_pair
on_pair-attribute next key this braced text rest h =
    rw
      (
        is_key-equal key this (value_text braced text rest),
        (read_value-text braced text rest h).0,
        (read_value-text braced text rest h).1,
      )
      refl

pub get_from-attribute :
    (fuel : ℕ) (key this : Bytes) (braced : Bool) (text rest : Bytes)
    → All IsKeyChar this
    → 0 < length this
    → IsValue braced text
    → get_from (suc fuel) key (this ++ (b'=' ∷ value_text braced text rest))
      ≡ (if equal_ignoring_case key this then some text else get_from fuel key rest)
unfolding get_from
get_from-attribute fuel key [] braced text rest h l v = absurd (omega (arith, l))
get_from-attribute fuel key (c ∷ this) braced text rest h l v =
    rw
      (
        skip_separators-key c (this ++ (b'=' ∷ value_text braced text rest)) h.0,
        span_to-front b'=' (c ∷ this) (value_text braced text rest)
            (All-map (c ∷ this) (λ d k. k.0) h),
      )
      (on_pair-attribute (get_from fuel key) key (c ∷ this) braced text rest v)

-- The last pair may end with the string.
read_value-end :
    (text : Bytes)
    → IsValue false text
    → ((read_value text).0 ≡ text) × (next_pair (read_value text).1 ≡ [])
unfolding read_value next_pair IsValue
read_value-end [] h = (refl, refl)
read_value-end (c ∷ text) h =
    rw (unbraced, span_to-end (c ∷ text) (All-map (c ∷ text) (λ d k. k.0) h)) (refl, refl)
  where
    unbraced : (c == b'{') ≡ false
    unbraced = ground (arith, h.0.1)

get_from-nil : (fuel : ℕ) (key : Bytes) → get_from fuel key [] ≡ none
unfolding get_from
get_from-nil zero key = refl
get_from-nil (suc fuel) key = refl

on_last :
    (fuel : ℕ) (key this text : Bytes)
    → IsValue false text
    → on_pair (get_from fuel key) key (this ++ (b'=' ∷ text)) (this, b'=' ∷ text)
      ≡ (if equal_ignoring_case key this then some text else none)
unfolding on_pair
on_last fuel key this text h =
    rw
      (
        is_key-equal key this text,
        (read_value-end text h).0,
        (read_value-end text h).1,
        get_from-nil fuel key,
      )
      refl

pub get_from-last :
    (fuel : ℕ) (key this text : Bytes)
    → All IsKeyChar this
    → 0 < length this
    → IsValue false text
    → get_from (suc fuel) key (this ++ (b'=' ∷ text))
      ≡ (if equal_ignoring_case key this then some text else none)
unfolding get_from
get_from-last fuel key [] text h l v = absurd (omega (arith, l))
get_from-last fuel key (c ∷ this) text h l v =
    rw
      (
        skip_separators-key c (this ++ (b'=' ∷ text)) h.0,
        span_to-front b'=' (c ∷ this) text (All-map (c ∷ this) (λ d k. k.0) h),
      )
      (on_last fuel key (c ∷ this) text v)

get_from-find :
    (attributes : List Attribute) (fuel : ℕ) (key : Bytes)
    → All IsAttribute attributes
    → length attributes ≤ fuel
    → get_from fuel key (conn_text attributes) ≡ find_attribute key attributes
unfolding conn_text find_attribute IsAttribute
get_from-find [] zero key h l = unfold get_from in refl
get_from-find [] (suc fuel) key h l = unfold get_from in refl
get_from-find (a ∷ attributes) zero key h l = absurd (omega (arith, l))
get_from-find (a ∷ attributes) (suc fuel) key h l =
    get_from-attribute fuel key a.key a.braced a.text (conn_text attributes) h.0.0 h.0.1 h.0.2
    ∙ ap (λ o. if equal_ignoring_case key a.key then some a.text else o)
        (get_from-find attributes fuel key h.1 (omega (arith, l)))

pub length-value_text :
    (braced : Bool) (text rest : Bytes) → length rest ≤ length (value_text braced text rest)
unfolding value_text
length-value_text true text rest = grind (arith, length-append text (b'}' ∷ (b';' ∷ rest)))
length-value_text false text rest = grind (arith, length-append text (b';' ∷ rest))

length-conn_text : (attributes : List Attribute) → length attributes ≤ length (conn_text attributes)
unfolding conn_text
length-conn_text [] = omega arith
length-conn_text (a ∷ attributes) = grind (
  arith,
  length-append a.key (b'=' ∷ value_text a.braced a.text (conn_text attributes)),
  length-value_text a.braced a.text (conn_text attributes),
  length-conn_text attributes,
)

-- In the text of a list of attributes, each a key, an equals sign, a value, in braces or not, and a
-- semicolon, the lookup of a key finds what a search of the list finds: the value of the first
-- attribute with that key, whatever its case, or nothing. The keys are not empty, and have no equals
-- sign, semicolon or blank; a value in braces has no closing brace, another no semicolon and no
-- opening brace.
pub conn_str_get-conn_text :
    (attributes : List Attribute) (key : Bytes)
    → All IsAttribute attributes
    → conn_str_get (conn_text attributes) key ≡ find_attribute key attributes
unfolding conn_str_get
conn_str_get-conn_text attributes key h =
    get_from-find attributes (length (conn_text attributes)) key h (length-conn_text attributes)
