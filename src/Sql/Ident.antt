-- ===== src/Sql/Ident.antt =====
-- Identifiers: `ident_is_bare`, `ident_is_quoted` and `fl_strbuf_append_ident` of src/util.c, and
-- the folding of a bare name in src/execute.c.
pub mod Closed
use frostlake_odbc.Base.{
  ℕ, zero, suc, ◌+◌, ◌-◌, Bool, true, false, ◌&&◌, ◌||◌, not, Option, none, some, [], ◌∷◌, ◌++◌,
  ◌==◌, leb, map, if◌then◌else◌, Bytes, codes, peek, strip_prefix,
}
use frostlake_odbc.Sql.Scanner.{is_upper, is_lower, is_digit, is_name_start, is_name_char, drop_one}

unfoldable pub all_name_chars : Bytes → Bool
all_name_chars [] = true
all_name_chars (c ∷ s) = is_name_char c && all_name_chars s

unfoldable pub ident_is_bare : Bytes → Bool
ident_is_bare [] = false
ident_is_bare (c ∷ s) = is_name_start c && all_name_chars s

-- The loop of `ident_is_quoted`, on what stands behind the opening quote: every quote in front of
-- the last character is one of a pair, and the last character is the closing quote.
unfoldable pub quoted_interior : Bytes → Bool
quoted_interior [] = false
quoted_interior (c ∷ []) = c == b'"'
quoted_interior (c ∷ d ∷ s) =
    let past_pair = quoted_interior s in
    let past_one = quoted_interior (d ∷ s) in if c == b'"' then d == b'"' && past_pair else past_one

unfoldable pub ident_is_quoted : Bytes → Bool
ident_is_quoted [] = false
ident_is_quoted (c ∷ s) = c == b'"' && quoted_interior s

unfoldable pub double_quotes : Bytes → Bytes
double_quotes [] = []
double_quotes (c ∷ s) =
    let rest = double_quotes s in if c == b'"' then b'"' ∷ c ∷ rest else c ∷ rest

-- `none` is the answer -1 for a missing name.
unfoldable pub append_ident : Bytes → Bytes → Option Bytes
append_ident buf [] = none
append_ident buf (c ∷ s) =
    let name = c ∷ s in
    if ident_is_quoted name || ident_is_bare name
    then some (buf ++ name)
    else some (buf ++ (b'"' ∷ (double_quotes name ++ (b'"' ∷ []))))

unfoldable pub to_upper : ℕ → ℕ
to_upper c = if is_lower c then c - 32 else c
