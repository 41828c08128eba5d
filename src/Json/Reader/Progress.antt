-- ===== src/Json/Reader/Progress.antt =====
-- How much each part of the reader of src/json.c consumes, against its fuel.
use frostlake_odbc.Base.{
  ℕ, zero, suc, ◌+◌, ◌≤◌, ◌<◌, ◌≡◌, ◌≢◌, inl, inr, subst, none, some, [], ◌∷◌, ◌++◌, arith, Bytes,
  length, length-append, strip_prefix, length-strip_prefix, Option-cases, codes, true, false,
}
use frostlake_odbc.Json.Text.{Parsed, ok, out_of_fuel, ◌>>=◌, parse_string_body}
use frostlake_odbc.Json.Text.Progress.{Below, Below-bind, Below-mono, parse_string_body-Below}
use frostlake_odbc.Json.Value.{Json, array, object, nil, string, end, null, bool}
use frostlake_odbc.Json.Reader.{
  max_depth, skip_ws, number_tail, nonempty_number, parse_number, parse_literal, after_member,
  array_loop, parse_array, expect, parse_key, object_loop, parse_object, parse_scalar, parse_switch,
  parse_value, parse_document,
}

pub length-skip_ws : (s : Bytes) → length (skip_ws s) ≤ length s
unfolding skip_ws
length-skip_ws [] = omega arith
length-skip_ws (c ∷ s) = ground (arith, length-skip_ws s)

length-number_tail :
    (lexeme s : Bytes)
    → length (number_tail lexeme s).0 + length (number_tail lexeme s).1 ≡ length lexeme + length s
unfolding number_tail
length-number_tail lexeme [] = omega arith
length-number_tail lexeme (c ∷ s) =
    ground (arith, length-number_tail (lexeme ++ c ∷ []) s, length-append lexeme (c ∷ []))

nonempty_number-Below :
    (p : Bytes × Bytes) (n : ℕ) → length p.0 + length p.1 ≡ n → Below n (nonempty_number p)
unfolding nonempty_number
nonempty_number-Below ([], s) n h = tt
nonempty_number-Below (c ∷ lexeme, s) n h = omega arith

parse_number-Below : (s : Bytes) → Below (length s) (parse_number s)
unfolding parse_number
parse_number-Below s =
    nonempty_number-Below (number_tail [] s) (length s) (omega (arith, length-number_tail [] s))

parse_literal-Below :
    (s word : Bytes) (node : Json) → 1 ≤ length word → Below (length s) (parse_literal s word node)
unfolding parse_literal
parse_literal-Below s word node h = elim (Option-cases (strip_prefix word s)) [
  | inl e ↦ rw (e, Below) tt
  | inr (r, e) ↦ rw (e, Below) (omega (arith, length-strip_prefix word s e))
]

expect-Below : (c : ℕ) (s : Bytes) → Below (length s) (expect c s)
unfolding expect
expect-Below c s = elim (Option-cases (strip_prefix (c ∷ []) (skip_ws s))) [
  | inl e ↦ rw (e, Below) tt
  | inr (r, e) ↦
      rw (e, Below) (omega (arith, length-strip_prefix (c ∷ []) (skip_ws s) e, length-skip_ws s))
]

parse_key-Below : (s : Bytes) → Below (length s) (parse_key s)
unfolding parse_key
parse_key-Below s = Below-bind (length s) (expect b'"' s) _ (expect-Below b'"' s) λ _ r h.
    Below-bind (length s) (parse_string_body r) _
      (Below-mono (length r) (length s) _ (omega arith) (parse_string_body-Below r))
      λ key t k.
        Below-bind (length s) (expect b':' t) _
          (Below-mono (length t) (length s) _ (omega arith) (expect-Below b':' t)) λ _ u j. j

after_member-Below {ℓ} :
    {A : Type ℓ} (n close : ℕ) (more : Bytes → Parsed A) (done : A) (s : Bytes)
    → length s < n
    → ((t : Bytes) → length t < length s → Below n (more t))
    → Below n (after_member close more done s)
unfolding after_member
after_member-Below n close more done [] h k = tt
after_member-Below n close more done (c ∷ s) h k = ground (arith, k s)

-- A reader of nested values that moves forward on every text shorter than `n`.
abbrev Advances : ℕ → (Bytes → Parsed Json) → Type 0
Advances n value = (t : Bytes) → length t < n → Below (length t) (value t)

module _ (n : ℕ) (value : Bytes → Parsed Json) (advances : Advances n value) where
  value-Below : (m : ℕ) (t : Bytes) → length t < n → length t ≤ m → Below m (value t)
  value-Below m t h k = Below-mono (length t) m _ k (advances t h)

  array_loop-Below :
      (fuel : ℕ) (s : Bytes)
      → length s < fuel
      → length s < n
      → Below (length s) (array_loop value fuel s)
  unfolding array_loop
  array_loop-Below zero s h k = absurd (omega arith)
  array_loop-Below (suc fuel) s h k = Below-bind (length s) (value s) _ (advances s k) λ child r j.
      after_member-Below (length s) b']' _ _ (skip_ws r) (omega (arith, length-skip_ws r)) λ t i.
        Below-bind (length s) (array_loop value fuel t) _
          (Below-mono (length t) (length s) _ (omega (arith, length-skip_ws r)) (
            array_loop-Below fuel t (omega (arith, length-skip_ws r))
              (omega (arith, length-skip_ws r))))
          λ rest u g. g

  object_loop-Below :
      (fuel : ℕ) (s : Bytes)
      → length s < fuel
      → length s < n
      → Below (length s) (object_loop value fuel s)
  unfolding object_loop
  object_loop-Below zero s h k = absurd (omega arith)
  object_loop-Below (suc fuel) s h k =
      Below-bind (length s) (parse_key s) _ (parse_key-Below s) λ key r j.
        Below-bind (length s) (value r) _ (value-Below (length s) r (omega arith) (omega arith))
          λ child t i.
            after_member-Below (length s) b'}' _ _ (skip_ws t) (omega (arith, length-skip_ws t))
              λ u g.
                Below-bind (length s) (object_loop value fuel u) _
                  (Below-mono (length u) (length s) _ (omega (arith, length-skip_ws t)) (
                    object_loop-Below fuel u (omega (arith, length-skip_ws t))
                      (omega (arith, length-skip_ws t))))
                  λ rest v f. f

  bracket-Below {ℓ} :
      {A : Type ℓ} (close : ℕ) (s : Bytes) (empty : Json) (loop : Bytes → Parsed A)
      (wrap : A → Json)
      → length s < n
      → ((t : Bytes) → length t ≤ length s → Below (length t) (loop t))
      → Below (suc (length s)) (elim (strip_prefix (close ∷ []) (skip_ws s)) as (λ _. Parsed Json) [
        | some r ↦ ok empty r
        | none ↦ loop (skip_ws s) >>= λ children r. ok (wrap children) r
      ])
  bracket-Below close s empty loop wrap h k =
      elim (Option-cases (strip_prefix (close ∷ []) (skip_ws s))) [
        | inl e ↦ rw e (
            Below-bind (suc (length s)) (loop (skip_ws s)) _
              (Below-mono (length (skip_ws s)) (suc (length s)) _ (omega (arith, length-skip_ws s))
                (k (skip_ws s) (length-skip_ws s)))
              λ c r j. j)
        | inr (r, e) ↦
            rw e (omega (arith, length-strip_prefix (close ∷ []) (skip_ws s) e, length-skip_ws s))
      ]

  parse_array-Below : (s : Bytes) → length s < n → Below (suc (length s)) (parse_array value n s)
  unfolding parse_array
  parse_array-Below s h =
      bracket-Below b']' s (array nil) (array_loop value n) array h
        λ t k. array_loop-Below n t (omega arith) (omega arith)

  parse_object-Below : (s : Bytes) → length s < n → Below (suc (length s)) (parse_object value n s)
  unfolding parse_object
  parse_object-Below s h =
      bracket-Below b'}' s (object end) (object_loop value n) object h
        λ t k. object_loop-Below n t (omega arith) (omega arith)

parse_text-Below :
    (s : Bytes) → Below (suc (length s)) (parse_string_body s >>= λ text r. ok (string text) r)
parse_text-Below s =
    Below-bind (suc (length s)) (parse_string_body s) _
      (Below-mono (length s) (suc (length s)) _ (omega arith) (parse_string_body-Below s))
      λ text r h. h

parse_scalar-Below : (c : ℕ) (s : Bytes) → Below (suc (length s)) (parse_scalar c s)
unfolding parse_scalar
parse_scalar-Below c s = ground (
  arith,
  parse_text-Below s,
  parse_literal-Below (c ∷ s) (codes "true") (bool true),
  parse_literal-Below (c ∷ s) (codes "false") (bool false),
  parse_literal-Below (c ∷ s) (codes "null") null,
  parse_number-Below (c ∷ s),
)

parse_switch-Below-some :
    (n : ℕ) (value : Bytes → Parsed Json)
    → Advances n value
    → (s : Bytes) → length s ≤ n
    → Below (length s) (parse_switch (some value) n s)
unfolding parse_switch
parse_switch-Below-some n value advances [] h = tt
parse_switch-Below-some n value advances (c ∷ s) h = ground (
  arith,
  parse_object-Below n value advances s,
  parse_array-Below n value advances s,
  parse_scalar-Below c s,
)

parse_switch-Below-none : (n : ℕ) (s : Bytes) → Below (length s) (parse_switch none n s)
unfolding parse_switch
parse_switch-Below-none n [] = tt
parse_switch-Below-none n (c ∷ s) = ground (arith, parse_scalar-Below c s)

parse_value-Below :
    (room fuel : ℕ) (s : Bytes) → length s < fuel → Below (length s) (parse_value room fuel s)
unfolding parse_value
parse_value-Below zero fuel s h =
    Below-mono (length (skip_ws s)) (length s) _ (length-skip_ws s)
      (parse_switch-Below-none fuel (skip_ws s))
parse_value-Below (suc room) fuel s h =
    Below-mono (length (skip_ws s)) (length s) _ (length-skip_ws s) (
      parse_switch-Below-some fuel (parse_value room fuel) (λ t k. parse_value-Below room fuel t k)
        (skip_ws s) (omega (arith, length-skip_ws s)))

pub parse_document-Below : (s : Bytes) → Below (suc (length s)) (parse_document s)
unfolding parse_document
parse_document-Below s =
    Below-bind (suc (length s)) (parse_value max_depth (suc (length s)) s) _
      (Below-mono (length s) (suc (length s)) _ (omega arith)
        (parse_value-Below max_depth (suc (length s)) s (omega arith)))
      λ root r h. ground arith

-- On every input the reader ends within its fuel, with a tree or a refusal.
pub parse_document-ne-out_of_fuel : (s : Bytes) → parse_document s ≢ out_of_fuel
parse_document-ne-out_of_fuel s e = subst (Below (suc (length s))) e (parse_document-Below s)
