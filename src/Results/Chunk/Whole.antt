-- ===== src/Results/Chunk/Whole.antt =====
-- Repeated character reads of src/results.c, and where one piece ends.
use frostlake_odbc.Base.{
  ℕ, zero, suc, ◌+◌, ◌-◌, ◌≤◌, ◌<◌, Bool, true, false, ◌≡◌, refl, ap, sym, ◌∙◌, some, [], ◌∷◌, ◌++◌,
  append_assoc, ltb, if◌then◌else◌, Bytes, length, take, drop, arith, Bool-cases, ltb→lt, inl, inr,
}
use frostlake_odbc.Results.Chunk.{
  is_continuation_at, back_up, copy_size, delivered, read_rest, read_char, read_loop,
}

back_up-le : (rest : Bytes) (whole : ℕ) → back_up rest whole ≤ whole
unfolding back_up
back_up-le rest zero = omega arith
back_up-le rest (suc whole) = ground (arith, back_up-le rest whole)

copy_size-range :
    (rest : Bytes) (room : ℕ)
    → 0 < room
    → 0 < length rest
    → (0 < copy_size rest room) × (copy_size rest room ≤ length rest)
unfolding copy_size
copy_size-range rest room h k = ground (arith, back_up-le rest room)

take-drop : (n : ℕ) (s : Bytes) → take n s ++ drop n s ≡ s
take-drop zero s = refl
take-drop (suc n) [] = refl
take-drop (suc n) (c ∷ s) = ap (◌∷◌ c) (take-drop n s)

drop-nil : (n : ℕ) → drop {A = ℕ} n [] ≡ []
drop-nil zero = refl
drop-nil (suc n) = refl

drop-drop : (m n : ℕ) (s : Bytes) → drop n (drop m s) ≡ drop (m + n) s
drop-drop zero n s = ap (λ k. drop k s) (omega arith)
drop-drop (suc m) n [] = drop-nil n ∙ sym (drop-nil (suc m + n))
drop-drop (suc m) n (c ∷ s) =
    drop-drop m n s ∙ ap (λ k. drop k (c ∷ s)) {x = suc (m + n)} (omega arith)

pub length-drop : (n : ℕ) (s : Bytes) → length (drop n s) ≡ length s - n
length-drop zero s = omega arith
length-drop (suc n) [] = omega arith
length-drop (suc n) (c ∷ s) = omega (arith, length-drop n s)

take-all : (n : ℕ) (s : Bytes) → length s ≤ n → take n s ≡ s
take-all zero [] h = refl
take-all zero (c ∷ s) h = absurd (omega arith)
take-all (suc n) [] h = refl
take-all (suc n) (c ∷ s) h = ap (◌∷◌ c) (take-all n s (omega arith))

module _ (text : Bytes) (room : ℕ) where
  read_loop-step :
      (fuel offset : ℕ) (got : Bytes) {bytes : Bytes} {indicator next : ℕ} {cut : Bool}
      → read_char text offset room ≡ delivered bytes indicator next cut
      → read_loop (suc fuel) text room offset got ≡ read_loop fuel text room next (got ++ bytes)
  unfolding read_loop
  read_loop-step fuel offset got e = rw (e, read_loop) refl

  -- Past the end there is no data, and the loop is over.
  read_loop-end :
      (fuel : ℕ) (got : Bytes)
      → 1 ≤ fuel
      → read_loop fuel text room (length text + 1) got ≡ some got
  unfolding read_loop read_char
  read_loop-end zero got h = absurd (omega arith)
  read_loop-end (suc fuel) got h = ground arith

  read_char-cut :
      (offset : ℕ)
      → offset ≤ length text
      → copy_size (drop offset text) room < length (drop offset text)
      → read_char text offset room
        ≡ delivered
            (take (copy_size (drop offset text) room) (drop offset text))
            (length (drop offset text))
            (offset + copy_size (drop offset text) room)
            true
  unfolding read_char read_rest
  read_char-cut offset h k = ground arith

  read_char-rest :
      (offset : ℕ)
      → offset ≤ length text
      → length (drop offset text) ≤ copy_size (drop offset text) room
      → read_char text offset room
        ≡ delivered
            (take (copy_size (drop offset text) room) (drop offset text))
            (length (drop offset text))
            (length text + 1)
            false
  unfolding read_char read_rest
  read_char-rest offset h k = ground arith

  read_loop-drop :
      (fuel offset : ℕ) (got : Bytes)
      → 0 < room
      → offset ≤ length text
      → length text + 2 ≤ fuel + offset
      → read_loop fuel text room offset got ≡ some (got ++ drop offset text)
  read_loop-drop zero offset got r h k = absurd (omega arith)
  read_loop-drop (suc fuel) offset got r h k =
      elim (Bool-cases (ltb (copy_size rest room) (length rest))) [
        | inl e ↦
            read_loop-step fuel offset got (read_char-cut offset h (ltb→lt _ _ e))
            ∙ read_loop-drop fuel (offset + size) (got ++ take size rest) r
                (omega (arith, ltb→lt _ _ e, length-drop offset text))
                (omega (arith, k, (copy_size-range rest room r (omega (arith, ltb→lt _ _ e))).0))
            ∙ ap some (
                append_assoc got _ _
                ∙ ap (λ t. got ++ t)
                    (ap (λ t. take size rest ++ t) (sym (drop-drop offset size text))
                      ∙ take-drop size rest))
        | inr e ↦
            read_loop-step fuel offset got (read_char-rest offset h (not_lt e))
            ∙ read_loop-end fuel _ (omega arith)
            ∙ ap (λ t. some (got ++ t)) (take-all size rest (not_lt e))
      ]
    where
      rest : Bytes
      rest = drop offset text

      size : ℕ
      size = copy_size rest room

      not_lt : ltb size (length rest) ≡ false → length rest ≤ size
      not_lt e = ground (arith, e)

-- Called until it answers SQL_NO_DATA, with a buffer that holds one byte and its NUL at least, the
-- read delivers the cell's text, the whole of it and nothing twice, and does end: one call for
-- each byte and two more are always enough. An empty text is delivered too.
pub read_loop-whole :
    (text : Bytes) (room : ℕ) → 0 < room → read_loop (length text + 2) text room 0 [] ≡ some text
read_loop-whole text room h = read_loop-drop text room _ 0 [] h (omega arith) (omega arith)

back_up-boundary :
    (rest : Bytes) (whole i : ℕ)
    → 0 < i
    → i ≤ whole
    → is_continuation_at rest i ≡ false
    → (is_continuation_at rest (back_up rest whole) ≡ false) × (0 < back_up rest whole)
unfolding back_up
back_up-boundary rest zero i h k q = absurd (omega arith)
back_up-boundary rest (suc whole) i h k q =
    go (is_continuation_at rest (suc whole)) refl (back_up-boundary rest whole i h)
  where
    clash : (is_continuation_at rest (suc whole) ≡ true) → i ≡ suc whole → ⊥
    clash e p = ground (arith, ap (is_continuation_at rest) p, q, e)

    Holds : ℕ → Type 0
    Holds n = (is_continuation_at rest n ≡ false) × (0 < n)

    go :
        (b : Bool)
        → is_continuation_at rest (suc whole) ≡ b
        → (i ≤ whole → is_continuation_at rest i ≡ false → Holds (back_up rest whole))
        → Holds (if b then back_up rest whole else suc whole)
    go true e next = next (ground (arith, clash e)) q
    go false e next = (e, omega arith)

-- A piece that leaves text behind ends in front of a character, when the text has a character
-- boundary behind the first byte and within the buffer's room.
pub copy_size-boundary :
    (rest : Bytes) (room i : ℕ)
    → room < length rest
    → 0 < i
    → i ≤ room
    → is_continuation_at rest i ≡ false
    → is_continuation_at rest (copy_size rest room) ≡ false
unfolding copy_size
copy_size-boundary rest room i l h k q =
    let stop = back_up-boundary rest room i h k q in
    ap (is_continuation_at rest) (chosen stop.1) ∙ stop.0
  where
    chosen : 0 < back_up rest room → copy_size rest room ≡ back_up rest room
    chosen p = ground arith
