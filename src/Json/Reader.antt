-- ===== src/Json/Reader.antt =====
-- The recursive reader of src/json.c. `room` is FL_JSON_MAX_DEPTH less the parser's `depth`; the
-- loops over members take fuel, the length of the input and one more.
pub mod Progress
pub mod Depth
use frostlake_odbc.Base.{
  ℕ, zero, suc, Bool, true, false, ◌&&◌, ◌||◌, Option, none, some, [], ◌∷◌, ◌++◌, ◌==◌, leb,
  if◌then◌else◌, Bytes, codes, length, strip_prefix,
}
use frostlake_odbc.Json.Text.{Parsed, ok, bad, out_of_fuel, ◌>>=◌, parse_string_body}
use frostlake_odbc.Json.Value.{
  Json, Items, Fields, null, bool, number, string, array, object, nil, cons, end, field,
}

abbrev pub max_depth : ℕ
max_depth = 64

unfoldable pub is_ws : ℕ → Bool
is_ws c = c == b' ' || c == b'\t' || c == b'\n' || c == b'\r'

unfoldable pub skip_ws : Bytes → Bytes
skip_ws [] = []
skip_ws (c ∷ s) = if is_ws c then skip_ws s else c ∷ s

unfoldable pub is_number_char : ℕ → Bool
is_number_char c =
    (leb b'0' c && leb c b'9') || c == b'.' || c == b'e' || c == b'E' || c == b'+' || c == b'-'

-- The second `while` of `parse_number`: the lexeme read so far is `lexeme`.
unfoldable pub number_tail : Bytes → Bytes → Bytes × Bytes
number_tail lexeme [] = (lexeme, [])
number_tail lexeme (c ∷ s) =
    let more = number_tail (lexeme ++ (c ∷ [])) s in
    if is_number_char c then more else (lexeme, c ∷ s)

unfoldable pub nonempty_number : Bytes × Bytes → Parsed Json
nonempty_number ([], s) = bad
nonempty_number (c ∷ lexeme, s) = ok (number (c ∷ lexeme)) s

-- A leading `-` is a number character, so the first `if` adds nothing to the loop.
unfoldable pub parse_number : Bytes → Parsed Json
parse_number s = nonempty_number (number_tail [] s)

unfoldable pub parse_literal : Bytes → Bytes → Json → Parsed Json
parse_literal s word node = elim (strip_prefix word s) [ some r ↦ ok node r | none ↦ bad ]

-- Behind a member: `,` goes on, the closing bracket ends, anything else is malformed.
unfoldable pub after_member {ℓ} : {A : Type ℓ} → ℕ → (Bytes → Parsed A) → A → Bytes → Parsed A
after_member close more done [] = bad
after_member close more done (c ∷ s) =
    if c == b',' then more s else if c == close then ok done s else bad

unfoldable pub array_loop : (Bytes → Parsed Json) → ℕ → Bytes → Parsed Items
array_loop value zero s = out_of_fuel
array_loop value (suc fuel) s = value s >>= λ child r.
    after_member b']' (λ t. array_loop value fuel t >>= λ rest u. ok (cons child rest) u)
      (cons child nil) (skip_ws r)

unfoldable pub parse_array : (Bytes → Parsed Json) → ℕ → Bytes → Parsed Json
parse_array value fuel s = elim (strip_prefix (b']' ∷ []) (skip_ws s)) [
  | some r ↦ ok (array nil) r
  | none ↦ array_loop value fuel (skip_ws s) >>= λ children r. ok (array children) r
]

-- The `"` that opens a key, and the `:` behind it.
unfoldable pub expect : ℕ → Bytes → Parsed (Unit {0})
expect c s = elim (strip_prefix (c ∷ []) (skip_ws s)) [ some r ↦ ok tt r | none ↦ bad ]

unfoldable pub parse_key : Bytes → Parsed Bytes
parse_key s =
    expect b'"' s >>= λ _ r. parse_string_body r >>= λ key t. expect b':' t >>= λ _ u. ok key u

unfoldable pub object_loop : (Bytes → Parsed Json) → ℕ → Bytes → Parsed Fields
object_loop value zero s = out_of_fuel
object_loop value (suc fuel) s = parse_key s >>= λ key r. value r >>= λ child t.
    after_member b'}' (λ u. object_loop value fuel u >>= λ rest v. ok (field key child rest) v)
      (field key child end) (skip_ws t)

unfoldable pub parse_object : (Bytes → Parsed Json) → ℕ → Bytes → Parsed Json
parse_object value fuel s = elim (strip_prefix (b'}' ∷ []) (skip_ws s)) [
  | some r ↦ ok (object end) r
  | none ↦ object_loop value fuel (skip_ws s) >>= λ children r. ok (object children) r
]

unfoldable pub parse_scalar : ℕ → Bytes → Parsed Json
parse_scalar c s =
    if c == b'"'
    then (parse_string_body s >>= λ text r. ok (string text) r)
    else if c == b't'
    then parse_literal (c ∷ s) (codes "true") (bool true)
    else if c == b'f'
    then parse_literal (c ∷ s) (codes "false") (bool false)
    else if c == b'n'
    then parse_literal (c ∷ s) (codes "null") null
    else parse_number (c ∷ s)

-- The switch of `parse_value`. `nested` reads the values inside a bracket, and is `none` at the
-- depth limit.
unfoldable pub parse_switch : Option (Bytes → Parsed Json) → ℕ → Bytes → Parsed Json
parse_switch nested fuel [] = bad
parse_switch none fuel (c ∷ s) = if c == b'{' || c == b'[' then bad else parse_scalar c s
parse_switch (some value) fuel (c ∷ s) =
    if c == b'{'
    then parse_object value fuel s
    else if c == b'['
    then parse_array value fuel s
    else parse_scalar c s

unfoldable pub parse_value : ℕ → ℕ → Bytes → Parsed Json
parse_value zero fuel s = parse_switch none fuel (skip_ws s)
parse_value (suc room) fuel s = parse_switch (some (parse_value room fuel)) fuel (skip_ws s)

-- Only blanks may stand behind the root.
unfoldable pub at_end : Bytes → Bool
at_end [] = true
at_end (c ∷ s) = false

unfoldable pub parse_document : Bytes → Parsed Json
parse_document s = parse_value max_depth (suc (length s)) s >>= λ root r.
    if at_end (skip_ws r) then ok root [] else bad

-- `fl_json_parse`: NULL on malformed input.
unfoldable pub parse : Bytes → Option Json
parse s = elim (parse_document s) [ ok root r ↦ some root | bad ↦ none | out_of_fuel ↦ none ]
