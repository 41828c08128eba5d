-- ===== src/Json/Buffer.antt =====
-- The growable buffer of src/json.c (`fl_strbuf`): its contents, without the closing NUL, and the
-- size of its allocation. Allocation succeeds, and sizes stay below the range of `size_t`.
use frostlake_odbc.Base.{
  ℕ, zero, suc, ◌+◌, ◌*◌, ◌≤◌, ◌≡◌, [], ◌++◌, arith, ltb, leb, ◌==◌, if◌then◌else◌, Bytes, length,
  length-append,
}

pub record StrBuf : Type 0 where
  pub contents : Bytes
  pub capacity : ℕ

unfoldable pub strbuf_init : StrBuf
strbuf_init = record { contents = []; capacity = 0 }

-- The doubling loop, on fuel.
grow : ℕ → ℕ → ℕ → ℕ
grow zero wanted needed = wanted
grow (suc fuel) wanted needed =
    let doubled = grow fuel (wanted * 2) needed in if ltb wanted needed then doubled else wanted

-- The fuel is the size asked for: each round at least adds one.
unfoldable pub strbuf_reserve : StrBuf → ℕ → StrBuf
unfolding grow
strbuf_reserve buf extra =
    let needed = length buf.contents + extra + 1 in
    if leb needed buf.capacity then buf else record buf {
      capacity = grow needed (if buf.capacity == 0 then 256 else buf.capacity) needed;
    }

unfoldable pub strbuf_append_len : StrBuf → Bytes → StrBuf
unfolding strbuf_reserve
strbuf_append_len buf text =
    let reserved = strbuf_reserve buf (length text) in
    record reserved { contents = reserved.contents ++ text }

grow-le :
    (fuel wanted needed : ℕ)
    → 1 ≤ wanted
    → needed ≤ wanted + fuel
    → needed ≤ grow fuel wanted needed
unfolding grow
grow-le zero wanted needed p h = omega arith
grow-le (suc fuel) wanted needed p h = ground (arith, grow-le fuel (wanted * 2) needed)

-- An append leaves the old contents in front of the text, and the allocation has room for both
-- and for the closing NUL.
pub strbuf_append_len-fits :
    (buf : StrBuf) (text : Bytes)
    → ((strbuf_append_len buf text).contents ≡ buf.contents ++ text)
      × (length (strbuf_append_len buf text).contents + 1 ≤ (strbuf_append_len buf text).capacity)
unfolding strbuf_append_len
strbuf_append_len-fits buf text = ground (
  arith,
  length-append buf.contents text,
  grow-le (length buf.contents + length text + 1) 256 (length buf.contents + length text + 1),
  grow-le (length buf.contents + length text + 1) buf.capacity
      (length buf.contents + length text + 1),
)
