-- ===== src/Http/Header.antt =====
-- `find_header` of src/http.c, and the search for a mark in a text.
use frostlake_odbc.Base.{
  ℕ, zero, suc, ◌+◌, Bool, ◌&&◌, ◌||◌, Option, none, some, [], ◌∷◌, ◌==◌, ltb, if◌then◌else◌, Bytes,
  length, drop, peek, strip_prefix,
}
use frostlake_odbc.Response.Types.{starts_ignoring_case}

unfoldable pub put_front : ℕ → Option (Bytes × Bytes) → Option (Bytes × Bytes)
put_front c none = none
put_front c (some (before, after)) = some (c ∷ before, after)

unfoldable pub split_here : Option Bytes → Option (Bytes × Bytes) → Option (Bytes × Bytes)
split_here (some after) further = some ([], after)
split_here none further = further

-- `memmem` and `strstr` for a mark that is not empty: the text in front of its first occurrence, and
-- the text behind it.
unfoldable pub split_on : Bytes → Bytes → Option (Bytes × Bytes)
split_on mark [] = none
split_on mark (c ∷ s) = split_here (strip_prefix mark (c ∷ s)) (put_front c (split_on mark s))

unfoldable pub skip_tabs : Bytes → Bytes
skip_tabs [] = []
skip_tabs (c ∷ s) = if c == b' ' || c == b'\t' then skip_tabs s else c ∷ s

abbrev pub crlf : Bytes
crlf = b'\r' ∷ b'\n' ∷ []

-- The length of a line: up to its end, or to the end of the headers.
unfoldable pub line_length : Bytes → Option (Bytes × Bytes) → ℕ
line_length line none = length line
line_length line (some (before, after)) = length before

unfoldable pub is_field : Bytes → Bytes → ℕ → Bool
is_field name line size =
    ltb (length name + 1) size
    && starts_ignoring_case name line
    && peek (drop (length name) line) == b':'

-- One round for the line at the front; `further` is the loop on the line behind it.
unfoldable pub on_line : Bytes → Bytes → Option (Bytes × Bytes) → Option Bytes → Option Bytes
on_line name line next further =
    if is_field name line (line_length line next)
    then some (skip_tabs (drop (length name + 1) line))
    else further

unfoldable pub next_line : (Bytes → Option Bytes) → Option (Bytes × Bytes) → Option Bytes
next_line search none = none
next_line search (some (before, after)) = search after

-- The loop, on fuel for the bytes. What is found is a pointer into the headers: the value, and all
-- that stands behind it.
unfoldable pub find_from : ℕ → Bytes → Bytes → Option Bytes
find_from zero name headers = none
find_from (suc fuel) name [] = none
find_from (suc fuel) name (c ∷ s) =
    let next = split_on crlf (c ∷ s) in
    on_line name (c ∷ s) next (next_line (find_from fuel name) next)

unfoldable pub find_header : Bytes → Bytes → Option Bytes
find_header headers name = find_from (length headers) name headers
