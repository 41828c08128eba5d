-- ===== src/Http/Chunked/Fuel.antt =====
-- The fuel of the loop of `decode_chunked` in src/http.c: one more than the bytes is enough.
use frostlake_odbc.Base.{
  ℕ, zero, suc, ◌+◌, ◌-◌, ◌≡◌, ◌≤◌, ◌<◌, refl, ap, ◌∙◌, arith, Option, none, some, [], ◌∷◌, ◌++◌,
  Bytes, length, drop, take, strip_prefix, length-strip_prefix, ltb, if◌then◌else◌,
}
use frostlake_odbc.Base.Int.{ℤ, pos, negsuc}
use frostlake_odbc.Results.Chunk.Whole.{length-drop}
use frostlake_odbc.Http.Header.{split_on, split_here, put_front, crlf}
use frostlake_odbc.Http.Chunked.{
  Decoded, malformed, skip_crlf, take_chunk, after_line, chunk_loop, decode_chunked, strtol_hex,
}

-- The text behind a mark, if there is one, has fewer than `n` bytes.
Behind : ℕ → Option (Bytes × Bytes) → Type 0
Behind n none = Unit
Behind n (some (before, after)) = length after < n

put_front-Behind :
    (c n : ℕ) (o : Option (Bytes × Bytes)) → Behind n o → Behind (suc n) (put_front c o)
unfolding put_front Behind
put_front-Behind c n none h = tt
put_front-Behind c n (some (before, after)) h = omega (arith, h)

here-Behind :
    (c : ℕ) (s : Bytes) (stripped : Option Bytes) (further : Option (Bytes × Bytes))
    → strip_prefix crlf (c ∷ s) ≡ stripped
    → Behind (suc (length s)) further
    → Behind (suc (length s)) (split_here stripped further)
unfolding split_here Behind
here-Behind c s none further e h = h
here-Behind c s (some after) further e h = omega (arith, length-strip_prefix crlf (c ∷ s) e)

split_on-Behind : (s : Bytes) → Behind (length s) (split_on crlf s)
unfolding split_on
split_on-Behind [] = unfold Behind in tt
split_on-Behind (c ∷ s) =
    here-Behind c s (strip_prefix crlf (c ∷ s)) (put_front c (split_on crlf s)) refl
      (put_front-Behind c (length s) (split_on crlf s) (split_on-Behind s))

length-skip_crlf : (s : Bytes) → length (skip_crlf s) ≤ length s
unfolding skip_crlf
length-skip_crlf s = go (strip_prefix crlf s) refl
  where
    go :
        (o : Option Bytes)
        → strip_prefix crlf s ≡ o
        → length (elim o as (λ _. Bytes) [ some rest ↦ rest | none ↦ s ]) ≤ length s
    go none e = omega arith
    go (some rest) e = omega (arith, length-strip_prefix crlf s e)

-- Two loops that agree on every shorter text.
Agree : ℕ → (Bytes → Bytes → Decoded) → (Bytes → Bytes → Decoded) → Type 0
Agree n f g = (out rest : Bytes) → length rest < n → f out rest ≡ g out rest

take_chunk-Agree :
    (n position : ℕ) (f g : Bytes → Bytes → Decoded) (out after : Bytes) (z : ℤ)
    → Agree n f g
    → length after < n
    → take_chunk f position out after z ≡ take_chunk g position out after z
unfolding take_chunk Agree
take_chunk-Agree n position f g out after (pos zero) h l = refl
take_chunk-Agree n position f g out after (negsuc m) h l = refl
take_chunk-Agree n position f g out after (pos (suc m)) h l =
    ap (λ d. if ltb (length after) (suc m) then malformed else d)
      (h (out ++ take (suc m) after) (skip_crlf (drop (suc m) after))
        (omega (arith, length-skip_crlf (drop (suc m) after), length-drop (suc m) after, l)))

after_line-Agree :
    (total : ℕ) (f g : Bytes → Bytes → Decoded) (out rest : Bytes) (o : Option (Bytes × Bytes))
    → Agree (length rest) f g
    → Behind (length rest) o
    → after_line f total out rest o ≡ after_line g total out rest o
unfolding after_line Behind
after_line-Agree total f g out rest none h b = refl
after_line-Agree total f g out rest (some (line, after)) h b =
    take_chunk-Agree (length rest) (total - length after) f g out after (strtol_hex rest) h b

chunk_loop-more :
    (fuel total : ℕ) (out rest : Bytes)
    → length rest < fuel
    → chunk_loop fuel total out rest ≡ chunk_loop (suc fuel) total out rest
unfolding chunk_loop
chunk_loop-more zero total out rest l = absurd (omega (arith, l))
chunk_loop-more (suc fuel) total out [] l = refl
chunk_loop-more (suc fuel) total out (c ∷ s) l =
    after_line-Agree total (chunk_loop fuel total) (chunk_loop (suc fuel) total) out (c ∷ s)
      (split_on crlf (c ∷ s))
      (agree (λ out' rest' k. chunk_loop-more fuel total out' rest' (omega (arith, k, l))))
      (split_on-Behind (c ∷ s))
  where
    agree :
        ((out' rest' : Bytes)
          → length rest' < length (c ∷ s)
          → chunk_loop fuel total out' rest' ≡ chunk_loop (suc fuel) total out' rest')
        → Agree (length (c ∷ s)) (chunk_loop fuel total) (chunk_loop (suc fuel) total)
    agree h = unfold Agree in h

-- Whatever the body, more fuel than one for each byte and one more decodes it to the same answer:
-- the loop ends before it runs out.
decode_chunked-fuel :
    (body : Bytes) (k : ℕ)
    → decode_chunked body ≡ chunk_loop (suc (length body) + k) (length body) [] body
unfolding decode_chunked
decode_chunked-fuel body zero = ap (λ n. chunk_loop n (length body) [] body) (omega arith)
decode_chunked-fuel body (suc k) =
    decode_chunked-fuel body k
    ∙ chunk_loop-more (suc (length body) + k) (length body) [] body (omega arith)
    ∙ ap (λ n. chunk_loop n (length body) [] body) (omega arith)
