-- ===== src/Http/Tests.antt =====
-- Runs of src/http.c on concrete texts.
use frostlake_odbc.Base.{
  ◌≡◌, refl, true, false, strip_prefix, some, [], ◌∷◌, ◌++◌, Bytes, List, codes, All, arith,
}
use frostlake_odbc.Base.Int.{pos}
use frostlake_odbc.Response.Decode.{strtol, signed_long, leading_digits}
use frostlake_odbc.Results.Integer.{skip_c_spaces, is_c_space}
use frostlake_odbc.Results.Convert.Pieces.{hex_nibble}
use frostlake_odbc.Http.Header.{
  crlf, find_header, find_from, on_line, is_field, line_length, next_line, split_on, split_here,
  put_front, skip_tabs,
}
use frostlake_odbc.Http.Chunked.{
  copy_overrun, chunk_loop, after_line, take_chunk, strtol_hex, signed_hex, skip_mark, decoded,
  decode_chunked, is_hex, hex_run, hex_or, add_digit,
}
use frostlake_odbc.Http.Chunked.RoundTrip.{
  SizedChunk, IsChunk, encode, body_of, decode_chunked-encode,
}
use frostlake_odbc.Http.Response.Payload.{read_body-chunked}
use frostlake_odbc.Response.Types.{starts_ignoring_case}
use frostlake_odbc.Sql.Ident.{to_upper}
use frostlake_odbc.Sql.Scanner.{is_lower, is_digit}
use frostlake_odbc.Http.Response.{replied, is_chunked, read_body}

abbrev two_chunks : List SizedChunk
two_chunks =
    record { size = codes "5"; data_bytes = codes "hello" }
    ∷ record { size = codes "0a"; data_bytes = codes ", chunked!" }
    ∷ []

two-IsChunk : All IsChunk two_chunks
unfolding IsChunk is_hex hex_run hex_or add_digit hex_nibble
two-IsChunk = (
  ((refl, tt), omega arith, refl, omega arith, omega arith),
  (((refl, (refl, tt)), omega arith, refl, omega arith, omega arith), tt),
)

decode_chunked-encode_example : decode_chunked (encode two_chunks) ≡ decoded (body_of two_chunks)
decode_chunked-encode_example = decode_chunked-encode two_chunks two-IsChunk

abbrev chunked_head : Bytes
chunked_head = codes "HTTP/1.1 200 OK" ++ (crlf ++ codes "Transfer-Encoding: chunked")

abbrev plain_head : Bytes
plain_head = codes "HTTP/1.1 200 OK" ++ (crlf ++ codes "content-length: 15")

names_chunked : is_chunked (find_header chunked_head (codes "Transfer-Encoding")) ≡ true
unfolding is_chunked find_header find_from on_line is_field line_length next_line split_on
    split_here put_front strip_prefix skip_tabs starts_ignoring_case to_upper is_lower
names_chunked = refl

names_nothing : is_chunked (find_header plain_head (codes "Transfer-Encoding")) ≡ false
unfolding is_chunked find_header find_from on_line is_field line_length next_line split_on
    split_here put_front strip_prefix skip_tabs starts_ignoring_case to_upper is_lower
names_nothing = refl

names_length : find_header plain_head (codes "Content-Length") ≡ some (codes "15")
unfolding find_header find_from on_line is_field line_length next_line split_on split_here put_front
    strip_prefix skip_tabs starts_ignoring_case to_upper is_lower
names_length = refl

fifteen : strtol (codes "15") ≡ pos 15
unfolding strtol signed_long skip_c_spaces is_c_space leading_digits is_digit
fifteen = refl

read_body-chunked_example :
    (read_body (pos 200) chunked_head (encode two_chunks)
      ≡ read_body (pos 200) plain_head (body_of two_chunks ++ codes "!"))
    × (read_body (pos 200) plain_head (body_of two_chunks ++ codes "!")
        ≡ replied (pos 200) (body_of two_chunks))
unfolding body_of
read_body-chunked_example =
    read_body-chunked (pos 200) chunked_head plain_head (codes "!") two_chunks names_chunked
      names_nothing names_length fifteen two-IsChunk

-- A chunk of a negative size, as far back as the body goes.
negative_chunk : decode_chunked (codes "-1" ++ crlf) ≡ copy_overrun
unfolding decode_chunked chunk_loop after_line split_on split_here put_front strip_prefix take_chunk
    strtol_hex skip_c_spaces is_c_space signed_hex hex_run skip_mark is_hex hex_nibble hex_or
    add_digit
negative_chunk = refl
