-- ===== src/Http/Chunked/RoundTrip.antt =====
-- A body in chunks, as a server writes it for `decode_chunked` of src/http.c.
use frostlake_odbc.Base.{
  ℕ, zero, suc, ◌-◌, ◌≡◌, ◌≤◌, ◌<◌, refl, sym, ap, ◌∙◌, arith, true, false, none, some, List, [],
  ◌∷◌, ◌++◌, ◌==◌, ltb, Bytes, All, length, length-append, take, drop, strip_prefix, append_assoc,
  append-nil,
}
use frostlake_odbc.Base.Int.{pos}
use frostlake_odbc.Response.Decode.{long_max}
use frostlake_odbc.Results.Integer.{skip_c_spaces, is_c_space}
use frostlake_odbc.Results.Convert.Pieces.{hex_nibble}
use frostlake_odbc.Http.Header.{split_on, split_here, put_front, crlf}
use frostlake_odbc.Http.Chunked.{
  is_hex, add_digit, hex_or, hex_run, skip_mark, clamp, signed_hex, strtol_hex, Decoded, decoded,
  skip_crlf, take_chunk, after_line, chunk_loop, decode_chunked,
}

-- A chunk: the text of its size, and its bytes.
pub record SizedChunk : Type 0 where
  pub size : Bytes
  pub data_bytes : Bytes

-- The size is hexadecimal digits for the number of the bytes, of which there is one at least.
unfoldable pub IsChunk : SizedChunk → Type 0
IsChunk c =
    All (λ d. is_hex d ≡ true) c.size
    × (0 < length c.size)
    × (hex_run 0 c.size ≡ length c.data_bytes)
    × (0 < length c.data_bytes)
    × (length c.data_bytes ≤ long_max)

unfoldable pub encode : List SizedChunk → Bytes
encode [] = b'0' ∷ (crlf ++ crlf)
encode (c ∷ chunks) = c.size ++ (crlf ++ (c.data_bytes ++ (crlf ++ encode chunks)))

unfoldable pub body_of : List SizedChunk → Bytes
body_of [] = []
body_of (c ∷ chunks) = c.data_bytes ++ body_of chunks

hex_range : (c : ℕ) → is_hex c ≡ true → b'0' ≤ c
unfolding is_hex hex_nibble
hex_range c h = ground arith

hex_no_x : (c : ℕ) → is_hex c ≡ true → ((c == b'x') ≡ false) × ((c == b'X') ≡ false)
unfolding is_hex hex_nibble
hex_no_x c h = (ground arith, ground arith)

cr_no_hex : is_hex b'\r' ≡ false
unfolding is_hex hex_nibble
cr_no_hex = refl

no_mark : (c : ℕ) (s : Bytes) → b'0' ≤ c → strip_prefix crlf (c ∷ s) ≡ none
unfolding strip_prefix
no_mark c s l = ground arith

split_on-size :
    (size r : Bytes)
    → All (λ d. is_hex d ≡ true) size
    → split_on crlf (size ++ (crlf ++ r)) ≡ some (size, r)
unfolding split_on split_here put_front
split_on-size [] r h = unfold strip_prefix in refl
split_on-size (c ∷ size) r h =
    rw (no_mark c (size ++ (crlf ++ r)) (hex_range c h.0), split_on-size size r h.1) refl

hex_run-size :
    (size r : Bytes) (n : ℕ)
    → All (λ d. is_hex d ≡ true) size
    → hex_run n (size ++ (crlf ++ r)) ≡ hex_run n size
unfolding hex_run
hex_run-size [] r n h = rw cr_no_hex refl
hex_run-size (c ∷ size) r n h =
    rw (h.0) (hex_run-size size r (hex_or n (add_digit n (hex_nibble c))) h.1)

first_plain : (c : ℕ) (s : Bytes) → b'0' ≤ c → skip_c_spaces (c ∷ s) ≡ c ∷ s
unfolding skip_c_spaces is_c_space
first_plain c s l = ground arith

signed_hex-plain :
    (c : ℕ) (s : Bytes)
    → b'0' ≤ c
    → signed_hex (c ∷ s) ≡ pos (clamp (hex_run 0 (skip_mark (c ∷ s))))
unfolding signed_hex
signed_hex-plain c s l = ground arith

no_mark_size :
    (c : ℕ) (size r : Bytes)
    → All (λ d. is_hex d ≡ true) size
    → skip_mark (c ∷ (size ++ (crlf ++ r))) ≡ c ∷ (size ++ (crlf ++ r))
unfolding skip_mark
no_mark_size c [] r h = ground arith
no_mark_size c (d ∷ size) r h = ground (arith, hex_no_x d h.0)

strtol_hex-size :
    (size r : Bytes) (n : ℕ)
    → All (λ d. is_hex d ≡ true) size
    → 0 < length size
    → hex_run 0 size ≡ n
    → n ≤ long_max
    → strtol_hex (size ++ (crlf ++ r)) ≡ pos n
unfolding strtol_hex
strtol_hex-size [] r n h l e k = absurd (omega (arith, l))
strtol_hex-size (c ∷ size) r n h l e k =
    rw (first_plain c (size ++ (crlf ++ r)) (hex_range c h.0)) (
      signed_hex-plain c (size ++ (crlf ++ r)) (hex_range c h.0)
      ∙ ap (λ t. pos (clamp (hex_run 0 t))) (no_mark_size c size r h.1)
      ∙ ap (λ m. pos (clamp m)) (hex_run-size (c ∷ size) r 0 h ∙ e)
      ∙ ap pos (unfold clamp in ground (arith, k)))

pub take-front : (xs ys : Bytes) → take (length xs) (xs ++ ys) ≡ xs
take-front [] ys = refl
take-front (x ∷ xs) ys = ap (◌∷◌ x) (take-front xs ys)

drop-front : (xs ys : Bytes) → drop (length xs) (xs ++ ys) ≡ ys
drop-front [] ys = refl
drop-front (x ∷ xs) ys = drop-front xs ys

skip_crlf-append : (s : Bytes) → skip_crlf (crlf ++ s) ≡ s
unfolding skip_crlf strip_prefix
skip_crlf-append s = refl

-- A chunk's bytes, and the line end behind them.
take_chunk-data :
    (next : Bytes → Bytes → Decoded) (position : ℕ) (out bytes r : Bytes)
    → 0 < length bytes
    → take_chunk next position out (bytes ++ (crlf ++ r)) (pos (length bytes))
      ≡ next (out ++ bytes) r
unfolding take_chunk
take_chunk-data next position out [] r l = absurd (omega (arith, l))
take_chunk-data next position out (b ∷ bytes) r l =
    rw (enough, take-front bytes (crlf ++ r), drop-front bytes (crlf ++ r), skip_crlf-append r) refl
  where
    enough : ltb (length (b ∷ (bytes ++ (crlf ++ r)))) (suc (length bytes)) ≡ false
    enough = ground (arith, length-append bytes (crlf ++ r))

chunk_loop-line :
    (fuel total : ℕ) (out size r : Bytes) (n : ℕ)
    → All (λ d. is_hex d ≡ true) size
    → 0 < length size
    → hex_run 0 size ≡ n
    → n ≤ long_max
    → chunk_loop (suc fuel) total out (size ++ (crlf ++ r))
      ≡ take_chunk (chunk_loop fuel total) (total - length r) out r (pos n)
unfolding chunk_loop after_line
chunk_loop-line fuel total out [] r n h l e k = absurd (omega (arith, l))
chunk_loop-line fuel total out (c ∷ size) r n h l e k =
    rw (split_on-size (c ∷ size) r h, strtol_hex-size (c ∷ size) r n h l e k) refl

zero_size : hex_run 0 (b'0' ∷ []) ≡ 0
unfolding hex_run is_hex hex_nibble hex_or add_digit
zero_size = refl

zero_hex : is_hex b'0' ≡ true
unfolding is_hex hex_nibble
zero_hex = refl

chunk_loop-encode :
    (chunks : List SizedChunk) (fuel total : ℕ) (out : Bytes)
    → All IsChunk chunks
    → length chunks < fuel
    → chunk_loop fuel total out (encode chunks) ≡ decoded (out ++ body_of chunks)
unfolding encode body_of IsChunk
chunk_loop-encode chunks zero total out h l = absurd (omega (arith, l))
chunk_loop-encode [] (suc fuel) total out h l =
    chunk_loop-line fuel total out (b'0' ∷ []) crlf 0 (zero_hex, tt) (omega arith) zero_size
      (omega arith)
    ∙ unfold take_chunk in ap decoded (sym (append-nil out))
chunk_loop-encode (c ∷ chunks) (suc fuel) total out h l =
    chunk_loop-line fuel total out c.size _ (length c.data_bytes) h.0.0 h.0.1 h.0.2 h.0.4
    ∙ take_chunk-data (chunk_loop fuel total) _ out c.data_bytes (encode chunks) h.0.3
    ∙ chunk_loop-encode chunks fuel total (out ++ c.data_bytes) h.1 (omega (arith, l))
    ∙ ap decoded (append_assoc out c.data_bytes (body_of chunks))

length-encode : (chunks : List SizedChunk) → length chunks ≤ length (encode chunks)
unfolding encode
length-encode [] = omega arith
length-encode (c ∷ chunks) = grind (
  arith,
  length-append c.size (crlf ++ (c.data_bytes ++ (crlf ++ encode chunks))),
  length-append c.data_bytes (crlf ++ encode chunks),
  length-encode chunks,
)

-- A body in chunks, each with a size in hexadecimal digits for the number of its bytes, which is not
-- zero and fits a `long`, and the last chunk of size zero behind them, decodes to the chunks' bytes
-- one behind the other.
pub decode_chunked-encode :
    (chunks : List SizedChunk)
    → All IsChunk chunks
    → decode_chunked (encode chunks) ≡ decoded (body_of chunks)
unfolding decode_chunked
decode_chunked-encode chunks h =
    chunk_loop-encode chunks _ _ [] h (omega (arith, length-encode chunks))
