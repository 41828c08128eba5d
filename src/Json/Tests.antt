-- ===== src/Json/Tests.antt =====
-- Runs of the buffer, the reader and the writer of src/json.c at concrete inputs.
use frostlake_odbc.Base.{◌≡◌, ◌≢◌, ◌≤◌, refl, true, some, ◌∷◌, ◌++◌, codes, arith}
use frostlake_odbc.Json.Text.{ok, out_of_fuel, escape, parse_string_body}
use frostlake_odbc.Json.Text.RoundTrip.{parse_string_body-escape}
use frostlake_odbc.Json.Value.{
  Json, null, bool, number, string, array, object, nil, cons, end, field,
}
use frostlake_odbc.Json.Reader.{max_depth, is_number_char, parse_document, parse}
use frostlake_odbc.Json.Reader.Progress.{parse_document-ne-out_of_fuel}
use frostlake_odbc.Json.Reader.Depth.{depth, parse-depth}
use frostlake_odbc.Json.Printer.{print}
use frostlake_odbc.Json.Printer.Scalars.{HasLexemes}
use frostlake_odbc.Json.Printer.RoundTrip.{parse-print}

-- {"a":[1,"\"x",null],"b":true}
abbrev sample : Json
sample = object (
    field (codes "a")
      (array (cons (number (codes "1")) (cons (string (codes "\"x")) (cons null nil))))
      (field (codes "b") (bool true) end))

sample-HasLexemes : HasLexemes sample
unfolding is_number_char
sample-HasLexemes = (((ground arith, (refl, tt)), (tt, (tt, tt))), (tt, tt))

parse-print_example : parse (print sample) ≡ some sample
parse-print_example = parse-print sample sample-HasLexemes (unfold depth in omega arith)

parse-depth_example : depth sample ≤ max_depth
parse-depth_example = parse-depth (print sample) parse-print_example

parse_document-ne-out_of_fuel_example : parse_document (codes "[1, 2") ≢ out_of_fuel
parse_document-ne-out_of_fuel_example = parse_document-ne-out_of_fuel (codes "[1, 2")

parse_string_body-escape_example :
    parse_string_body (escape (codes "a\n\"b\"") ++ (b'"' ∷ codes ","))
    ≡ ok (codes "a\n\"b\"") (codes ",")
parse_string_body-escape_example = parse_string_body-escape (codes "a\n\"b\"") (codes ",")
