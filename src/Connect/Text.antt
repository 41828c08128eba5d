-- ===== src/Connect/Text.antt =====
-- `conn_str_get` and `parse_port` of src/connect.c.
pub mod Lookup
use frostlake_odbc.Base.{
  ℕ, zero, suc, ◌+◌, ◌-◌, ◌*◌, Bool, true, false, ◌&&◌, ◌||◌, Option, none, some, [], ◌∷◌, ◌==◌,
  ltb, if◌then◌else◌, Bytes, length,
}
use frostlake_odbc.Sql.Scanner.{is_digit, drop_one}
use frostlake_odbc.Response.Types.{starts_ignoring_case}

-- The text in front of a character, and the text from it on, which is empty where there is none.
unfoldable pub span_to : ℕ → Bytes → Bytes × Bytes
span_to mark [] = ([], [])
span_to mark (c ∷ s) =
    let (before, rest) = span_to mark s in if c == mark then ([], c ∷ s) else (c ∷ before, rest)

unfoldable pub skip_separators : Bytes → Bytes
skip_separators [] = []
skip_separators (c ∷ s) = if c == b';' || c == b' ' then skip_separators s else c ∷ s

-- A value, and what `end` points at.
unfoldable pub read_value : Bytes → Bytes × Bytes
read_value [] = ([], [])
read_value (c ∷ s) = if c == b'{' then span_to b'}' s else span_to b';' (c ∷ s)

-- The next pair: behind the semicolon that follows.
unfoldable pub next_pair : Bytes → Bytes
next_pair [] = []
next_pair (c ∷ s) = if c == b'}' then drop_one (span_to b';' s).1 else drop_one (c ∷ s)

unfoldable pub is_key : Bytes → Bytes → Bytes → Bool
is_key key at_key this_key = length this_key == length key && starts_ignoring_case key at_key

-- A pair, from its key on; `next` is the loop.
unfoldable pub on_pair : (Bytes → Option Bytes) → Bytes → Bytes → Bytes × Bytes → Option Bytes
on_pair next key cur (this_key, []) = none
on_pair next key cur (this_key, eq ∷ value) =
    if is_key key cur this_key
    then some (read_value value).0
    else next (next_pair (read_value value).1)

-- The loop, on fuel for the bytes: each round takes an equals sign.
unfoldable pub get_from : ℕ → Bytes → Bytes → Option Bytes
get_from zero key cur = none
get_from (suc fuel) key [] = none
get_from (suc fuel) key (c ∷ s) =
    let at_key = skip_separators (c ∷ s) in
    on_pair (get_from fuel key) key at_key (span_to b'=' at_key)

unfoldable pub conn_str_get : Bytes → Bytes → Option Bytes
conn_str_get conn key = get_from (length conn) key conn

unfoldable pub is_pad : ℕ → Bool
is_pad c = c == b' ' || c == b'\t'

unfoldable pub skip_pads : Bytes → Bytes
skip_pads [] = []
skip_pads (c ∷ s) = if is_pad c then skip_pads s else c ∷ s

unfoldable pub all_pads : Bytes → Bool
all_pads [] = true
all_pads (c ∷ s) = is_pad c && all_pads s

-- The text up to `end`, once the loop has moved it in front of the blanks.
unfoldable pub trim_pads : Bytes → Bytes
trim_pads [] = []
trim_pads (c ∷ s) = let rest = trim_pads s in if all_pads (c ∷ s) then [] else c ∷ rest

unfoldable pub port_digits : ℕ → Bytes → Option ℕ
port_digits n [] = some n
port_digits n (c ∷ s) =
    let more = n * 10 + (c - b'0') in
    let rest = port_digits more s in
    if is_digit c then (if ltb 65535 more then none else rest) else none

unfoldable pub at_least_one : Option ℕ → Option ℕ
at_least_one none = none
at_least_one (some zero) = none
at_least_one (some (suc n)) = some (suc n)

unfoldable pub port_of : Bytes → Option ℕ
port_of [] = none
port_of (c ∷ s) = at_least_one (port_digits 0 (c ∷ s))

-- -1 is none.
unfoldable pub parse_port : Bytes → Option ℕ
parse_port text = port_of (trim_pads (skip_pads text))
