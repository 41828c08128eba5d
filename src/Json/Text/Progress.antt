-- ===== src/Json/Text/Progress.antt =====
-- How much the string reader of src/json.c consumes, against its fuel.
use frostlake_odbc.Base.{
  ℕ, zero, suc, ◌≤◌, ◌<◌, [], ◌∷◌, ◌++◌, arith, Bytes, length, drop, Bool-cases, inl, inr,
}
use frostlake_odbc.Json.Text.{
  Parsed, ok, bad, out_of_fuel, ◌>>=◌, text, closed, surrogate_pair, parse_hex4, parse_unicode,
  parse_escape, joins, parse_piece, parse_body, parse_string_body,
}

-- The position behind what was read has at most `n` bytes left; the fuel did not run out.
abbrev pub Within {ℓ} : {A : Type ℓ} → ℕ → Parsed A → Type 0
Within n (ok a r) = length r ≤ n
Within n bad = Unit
Within n out_of_fuel = ⊥

-- The same, with something read.
abbrev pub Below {ℓ} : {A : Type ℓ} → ℕ → Parsed A → Type 0
Below n (ok a r) = length r < n
Below n bad = Unit
Below n out_of_fuel = ⊥

pub Within-bind {ℓ κ} :
    {A : Type ℓ} {B : Type κ} (n : ℕ) (p : Parsed A) (f : A → Bytes → Parsed B)
    → Within n p
    → ((a : A) (r : Bytes) → length r ≤ n → Within n (f a r))
    → Within n (p >>= f)
Within-bind n (ok a r) f h k = k a r h
Within-bind n bad f h k = tt
Within-bind n out_of_fuel f h k = h

pub Below-bind {ℓ κ} :
    {A : Type ℓ} {B : Type κ} (n : ℕ) (p : Parsed A) (f : A → Bytes → Parsed B)
    → Below n p
    → ((a : A) (r : Bytes) → length r < n → Below n (f a r))
    → Below n (p >>= f)
Below-bind n (ok a r) f h k = k a r h
Below-bind n bad f h k = tt
Below-bind n out_of_fuel f h k = h

pub Below-mono {ℓ} : {A : Type ℓ} (m n : ℕ) (p : Parsed A) → m ≤ n → Below m p → Below n p
Below-mono m n (ok a r) le h = omega arith
Below-mono m n bad le h = tt
Below-mono m n out_of_fuel le h = h

parse_hex4-Within : (s : Bytes) → Within (length s) (parse_hex4 s)
unfolding parse_hex4
parse_hex4-Within (a ∷ b ∷ c ∷ d ∷ s) = ground arith
parse_hex4-Within _ = tt

length-drop : (n : ℕ) (s : Bytes) → length (drop n s) ≤ length s
length-drop zero s = omega arith
length-drop (suc n) [] = omega arith
length-drop (suc n) (x ∷ s) = omega (arith, length-drop n s)

surrogate_pair-Within : (high : ℕ) (s : Bytes) → Within (length s) (surrogate_pair high s)
unfolding surrogate_pair
surrogate_pair-Within high s = ground (arith, parse_hex4-Within s)

unicode_rest-Within :
    (cp : ℕ) (s : Bytes) (n : ℕ) → length s ≤ n → Within n (surrogate_pair cp (drop 2 s))
unicode_rest-Within cp s n h = ground (arith, surrogate_pair-Within cp (drop 2 s), length-drop 2 s)

parse_unicode-Within : (s : Bytes) → Within (length s) (parse_unicode s)
unfolding parse_unicode
parse_unicode-Within s = Within-bind (length s) (parse_hex4 s) _ (parse_hex4-Within s) λ cp r h.
    elim (Bool-cases (joins cp r)) [
      | inl e ↦ rw e (unicode_rest-Within cp r (length s) h)
      | inr e ↦ rw e h
    ]

parse_escape-Below : (s : Bytes) → Below (suc (length s)) (parse_escape s)
unfolding parse_escape
parse_escape-Below [] = tt
parse_escape-Below (c ∷ s) = ground (arith, parse_unicode-Within s)

pub parse_piece-Below : (s : Bytes) → Below (length s) (parse_piece s)
unfolding parse_piece
parse_piece-Below [] = tt
parse_piece-Below (c ∷ s) = ground (arith, parse_escape-Below s)

parse_body-Below :
    (fuel : ℕ) (buf s : Bytes) → length s < fuel → Below (length s) (parse_body fuel buf s)
unfolding parse_body
parse_body-Below zero buf s h = absurd (omega arith)
parse_body-Below (suc fuel) buf s h =
    Below-bind (length s) (parse_piece s) _ (parse_piece-Below s) (elim [
      | text bytes ↦ λ r k.
          Below-mono (length r) (length s) _ (omega arith)
            (parse_body-Below fuel (buf ++ bytes) r (omega arith))
      | closed ↦ λ r k. k
    ])

pub parse_string_body-Below : (s : Bytes) → Below (length s) (parse_string_body s)
unfolding parse_string_body
parse_string_body-Below s = parse_body-Below (suc (length s)) [] s (omega arith)
