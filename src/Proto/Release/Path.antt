-- ===== src/Proto/Release/Path.antt =====
-- The session id in the path of the release of src/proto.c, and the time that it may take.
use frostlake_odbc.Base.{
  ℕ, ◌+◌, ◌-◌, ◌*◌, ◌/◌, ◌%◌, ◌≤◌, ◌<◌, true, false, ◌≡◌, refl, ◌||◌, [], ◌∷◌, ◌++◌, ◌==◌, leb,
  if◌then◌else◌, Bytes, All, All-append, arith, Bool-cases, inl, inr, ap, ◌∙◌,
}
use frostlake_odbc.Dbc.{Dbc}
use frostlake_odbc.Sql.Scanner.{is_upper, is_lower, is_digit}
use frostlake_odbc.Sql.Literal.{upper_hex}
use frostlake_odbc.Proto.Release.{lower, limit_of, is_unreserved, path_byte, path_segment}

-- The limit of a release is at least one second and at most five, whatever the timeouts are.
limit_of-range : (dbc : Dbc) → (0 < limit_of dbc) × (limit_of dbc ≤ 5)
unfolding limit_of lower
limit_of-range dbc = ground arith

-- The digits of RFC 3986, section 2.1, read back.
upper_hex_value : ℕ → ℕ
upper_hex_value c = if leb c b'9' then c - b'0' else c - b'A' + 10

upper_hex_value-upper_hex : (n : ℕ) → n < 16 → upper_hex_value (upper_hex n) ≡ n
unfolding upper_hex_value upper_hex
upper_hex_value-upper_hex n h = ground arith

-- What a server reads in a path segment: a percent sign and two digits stand for one byte.
pub percent_decode : Bytes → Bytes
percent_decode [] = []
percent_decode (c ∷ []) = c ∷ []
percent_decode (c ∷ h ∷ []) = c ∷ percent_decode (h ∷ [])
percent_decode (c ∷ h ∷ l ∷ s) =
    let escaped = (upper_hex_value h * 16 + upper_hex_value l) ∷ percent_decode s in
    let plain = c ∷ percent_decode (h ∷ l ∷ s) in if c == b'%' then escaped else plain

decode-plain :
    (c : ℕ) (s : Bytes) → (c == b'%') ≡ false → percent_decode (c ∷ s) ≡ c ∷ percent_decode s
unfolding percent_decode
decode-plain c [] h = refl
decode-plain c (x ∷ []) h = refl
decode-plain c (x ∷ y ∷ s) h = rw h refl

unreserved-plain : (c : ℕ) → is_unreserved c ≡ true → (c == b'%') ≡ false
unfolding is_unreserved is_upper is_lower is_digit
unreserved-plain c e = ground arith

decode-path_byte :
    (c : ℕ) (s : Bytes) → c < 256 → percent_decode (path_byte c ++ s) ≡ c ∷ percent_decode s
unfolding path_byte percent_decode
decode-path_byte c s h = elim (Bool-cases (is_unreserved c)) [
  | inl e ↦ rw e (decode-plain c s (unreserved-plain c e))
  | inr e ↦
      rw
        (
          e,
          upper_hex_value-upper_hex (c / 16) (omega arith),
          upper_hex_value-upper_hex (c % 16) (omega arith),
        )
        (ap (λ n. n ∷ percent_decode s) (omega arith))
]

-- The path segment that names the session is the id's percent-encoding: a server that decodes it
-- reads the session id, for an id of bytes.
pub percent_decode-path_segment :
    (id : Bytes) → All (λ c. c < 256) id → percent_decode (path_segment id) ≡ id
unfolding path_segment percent_decode
percent_decode-path_segment [] h = refl
percent_decode-path_segment (c ∷ id) h =
    decode-path_byte c (path_segment id) h.0 ∙ ap (λ s. c ∷ s) (percent_decode-path_segment id h.1)

-- A character of a path that stays inside one segment and is no query and no fragment.
abbrev pub InSegment : ℕ → Type 0
InSegment c = (is_unreserved c || c == b'%') ≡ true

upper_hex-InSegment : (n : ℕ) → n < 16 → InSegment (upper_hex n)
unfolding upper_hex is_unreserved is_upper is_lower is_digit
upper_hex-InSegment n h = ground arith

percent-InSegment : InSegment b'%'
unfolding is_unreserved is_upper is_lower is_digit
percent-InSegment = refl

path_byte-InSegment : (c : ℕ) → c < 256 → All InSegment (path_byte c)
unfolding path_byte
path_byte-InSegment c h = elim (Bool-cases (is_unreserved c)) [
  | inl e ↦ rw e (ap (λ b. b || c == b'%') e, tt)
  | inr e ↦ rw e (
    percent-InSegment,
    (upper_hex-InSegment (c / 16) (omega arith), (upper_hex-InSegment (c % 16) (omega arith), tt)),
  )
]

-- The path segment of an id of bytes consists of unreserved characters and percent signs alone.
pub path_segment-InSegment : (id : Bytes) → All (λ c. c < 256) id → All InSegment (path_segment id)
unfolding path_segment
path_segment-InSegment [] h = tt
path_segment-InSegment (c ∷ id) h =
    All-append _ (path_byte c) _ (path_byte-InSegment c h.0) (path_segment-InSegment id h.1)
