-- ===== src/Sql/Tests.antt =====
-- Runs of the scanner, the literals and the identifiers at concrete inputs.
use frostlake_odbc.Base.{◌≡◌, refl, true, some, [], ◌++◌, codes, arith}
use frostlake_odbc.Sql.Scanner.{
  is_upper, is_lower, is_digit, is_name_start, is_name_char, name_rest, single_quoted,
  double_quoted, line_comment, past_mark, skip_opening, is_line_end, skip, count_loop,
  count_placeholders,
}
use frostlake_odbc.Sql.Literal.{
  append_string_literal, is_numeric_literal, digits, skip_sign, exponent_digits, exponent,
  after_mantissa, after_integer, skip_blanks, trim_end, all_blank, is_blank,
}
use frostlake_odbc.Sql.Literal.Closed.{skip-append_string_literal}
use frostlake_odbc.Sql.Literal.Numeric.{AllNumber, is_numeric_literal-AllNumber}
use frostlake_odbc.Sql.Ident.{
  append_ident, ident_is_bare, ident_is_quoted, quoted_interior, double_quotes, all_name_chars,
}
use frostlake_odbc.Sql.Ident.Closed.{skip-append_ident}

-- The marker in a string, a name, a comment and a $$ body is text; the two others count.
count_placeholders_run :
    count_placeholders (codes "a$$b = ? AND '?''?' /* ? */ -- ?\n$$ ? $$ OR \"?\" < ?") ≡ 2
unfolding is_upper is_lower is_digit is_name_start is_name_char name_rest single_quoted
    double_quoted line_comment past_mark skip_opening skip count_loop count_placeholders is_line_end
count_placeholders_run = refl

skip_comment : skip (codes "/* ? */ x") ≡ some (codes " x")
unfolding skip skip_opening is_name_start is_upper is_lower past_mark
skip_comment = refl

skip-append_string_literal_example :
    skip (append_string_literal [] (codes "it's \\") ++ codes " AND x") ≡ some (codes " AND x")
skip-append_string_literal_example =
    skip-append_string_literal (codes "it's \\") (codes " AND x")
      (
        (omega arith),
        ((omega arith), ((omega arith), ((omega arith), ((omega arith), ((omega arith), tt))))),
      )
      (ground arith)

numeric : is_numeric_literal (codes " -1.5e3 ") ≡ true
unfolding is_numeric_literal digits skip_sign exponent_digits exponent after_mantissa after_integer
    skip_blanks trim_end all_blank is_blank is_digit
numeric = refl

is_numeric_literal-AllNumber_example : AllNumber (codes " -1.5e3 ")
is_numeric_literal-AllNumber_example = is_numeric_literal-AllNumber (codes " -1.5e3 ") numeric

append_mixed : append_ident [] (codes "My \"T\"") ≡ some (codes "\"My \"\"T\"\"\"")
unfolding append_ident ident_is_bare ident_is_quoted quoted_interior double_quotes all_name_chars
    is_name_start is_name_char is_upper is_lower is_digit
append_mixed = refl

skip-append_ident_example : skip (codes "\"My \"\"T\"\"\"" ++ codes ".x") ≡ some (codes ".x")
skip-append_ident_example =
    skip-append_ident (codes "My \"T\"") (codes ".x") append_mixed
      (unfold is_name_char is_upper is_lower is_digit in refl) (ground arith)
