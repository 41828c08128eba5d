-- ===== src/Http/Response/Payload.antt =====
-- The two ways in which a response of src/http.c can carry a body.
use frostlake_odbc.Base.{
  ◌≡◌, refl, sym, ap, arith, true, false, some, List, ◌++◌, Bytes, All, codes, leb, length,
  length-append,
}
use frostlake_odbc.Base.Int.{ℤ, pos}
use frostlake_odbc.Response.Decode.{strtol}
use frostlake_odbc.Http.Header.{find_header}
use frostlake_odbc.Http.Chunked.RoundTrip.{
  SizedChunk, IsChunk, encode, body_of, take-front, decode_chunked-encode,
}
use frostlake_odbc.Http.Response.{
  replied, cut_to, declared_payload, is_chunked, reply_of, read_body,
}

cut_to-front : (body extra : Bytes) → cut_to (pos (length body)) (body ++ extra) ≡ body
unfolding cut_to
cut_to-front body extra = rw (fits, take-front body extra) refl
  where
    fits : leb (length body) (length (body ++ extra)) ≡ true
    fits = ground (arith, length-append body extra)

-- A response whose Transfer-Encoding begins with `chunked`, with the body in chunks, and one
-- without, which declares the body's length and may have more bytes behind it, are read as the same
-- reply, and it is the status with the body.
pub read_body-chunked :
    (status : ℤ) (chunked plain extra : Bytes) (chunks : List SizedChunk) {text : Bytes}
    → is_chunked (find_header chunked (codes "Transfer-Encoding")) ≡ true
    → is_chunked (find_header plain (codes "Transfer-Encoding")) ≡ false
    → find_header plain (codes "Content-Length") ≡ some text
    → strtol text ≡ pos (length (body_of chunks))
    → All IsChunk chunks
    → (read_body status chunked (encode chunks) ≡ read_body status plain (body_of chunks ++ extra))
      × (read_body status plain (body_of chunks ++ extra) ≡ replied status (body_of chunks))
unfolding read_body
read_body-chunked status chunked plain extra chunks {text} c p l n h =
    (rw (c, decode_chunked-encode chunks h) (unfold reply_of in sym declared), declared)
  where
    declared : read_body status plain (body_of chunks ++ extra) ≡ replied status (body_of chunks)
    declared =
        unfold declared_payload in
        rw (p, l, n) (ap (replied status) (cut_to-front (body_of chunks) extra))
