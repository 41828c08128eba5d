-- ===== src/Json/Reader/Depth.antt =====
-- Nesting in the reader of src/json.c, against FL_JSON_MAX_DEPTH.
use frostlake_odbc.Base.{
  ℕ, zero, suc, true, false, subst, ap, if◌then◌else◌, Option, ◌≤◌, ◌≡◌, refl, inl, inr, none, some,
  [], ◌∷◌, ◌++◌, arith, Bytes, length, strip_prefix, Option-cases, codes, replicate,
}
use Prim.Native.Nat.{max}
use frostlake_odbc.Json.Text.{Parsed, ok, bad, out_of_fuel, ◌>>=◌, parse_string_body}
use frostlake_odbc.Json.Value.{
  Json, Items, Fields, null, bool, string, array, object, cons, nil, field, end,
}
use frostlake_odbc.Json.Reader.{
  max_depth, is_ws, skip_ws, number_tail, nonempty_number, parse_number, parse_literal,
  after_member, array_loop, parse_array, parse_key, object_loop, parse_object, parse_scalar,
  parse_switch, parse_value, parse_document, parse, at_end,
}

-- The number of brackets around the innermost value.
unfoldable mutual
  pub depth : Json → ℕ
  depth (array vs) = suc (depth_items vs)
  depth (object fs) = suc (depth_fields fs)
  depth _ = 0

  pub depth_items : Items → ℕ
  depth_items nil = 0
  depth_items (cons v vs) = max (depth v) (depth_items vs)

  pub depth_fields : Fields → ℕ
  depth_fields end = 0
  depth_fields (field k v fs) = max (depth v) (depth_fields fs)

-- What was read, if anything was, meets `P`.
abbrev Yields {ℓ} : {A : Type ℓ} → (A → Type 0) → Parsed A → Type 0
Yields P (ok a r) = P a
Yields P bad = Unit
Yields P out_of_fuel = Unit

Yields-bind {ℓ κ} :
    {A : Type ℓ} {B : Type κ} (P : A → Type 0) (Q : B → Type 0) (p : Parsed A)
    (f : A → Bytes → Parsed B)
    → Yields P p
    → ((a : A) (r : Bytes) → P a → Yields Q (f a r))
    → Yields Q (p >>= f)
Yields-bind P Q (ok a r) f h k = k a r h
Yields-bind P Q bad f h k = tt
Yields-bind P Q out_of_fuel f h k = tt

Yields-any {ℓ} : {A : Type ℓ} (p : Parsed A) → Yields (λ _. Unit) p
Yields-any (ok a r) = tt
Yields-any bad = tt
Yields-any out_of_fuel = tt

after_member-Yields {ℓ} :
    {A : Type ℓ} (Q : A → Type 0) (close : ℕ) (more : Bytes → Parsed A) (done : A) (s : Bytes)
    → ((t : Bytes) → Yields Q (more t))
    → Q done
    → Yields Q (after_member close more done s)
unfolding after_member
after_member-Yields Q close more done [] h k = tt
after_member-Yields Q close more done (c ∷ s) h k = ground (arith, h s)

abbrev DepthLe : ℕ → Json → Type 0
DepthLe n v = depth v ≤ n

module _ (n : ℕ) (value : Bytes → Parsed Json)
    (shallow : (s : Bytes) → Yields (DepthLe n) (value s)) where
  array_loop-depth :
      (fuel : ℕ) (s : Bytes) → Yields (λ vs. depth_items vs ≤ n) (array_loop value fuel s)
  unfolding array_loop depth
  array_loop-depth zero s = tt
  array_loop-depth (suc fuel) s =
      Yields-bind (DepthLe n) (λ vs. depth_items vs ≤ n) (value s) _ (shallow s)
        λ child r h.
          after_member-Yields (λ vs. depth_items vs ≤ n) b']' _ _ (skip_ws r)
            (λ t.
              Yields-bind (λ vs. depth_items vs ≤ n) (λ vs. depth_items vs ≤ n)
                (array_loop value fuel t) _ (array_loop-depth fuel t) λ rest u k. omega arith)
            (omega arith)

  object_loop-depth :
      (fuel : ℕ) (s : Bytes) → Yields (λ fs. depth_fields fs ≤ n) (object_loop value fuel s)
  unfolding object_loop depth
  object_loop-depth zero s = tt
  object_loop-depth (suc fuel) s =
      Yields-bind (λ _. Unit) (λ fs. depth_fields fs ≤ n) (parse_key s) _ (Yields-any (parse_key s))
        λ key r _.
          Yields-bind (DepthLe n) (λ fs. depth_fields fs ≤ n) (value r) _ (shallow r)
            λ child t h.
              after_member-Yields (λ fs. depth_fields fs ≤ n) b'}' _ _ (skip_ws t)
                (λ u.
                  Yields-bind (λ fs. depth_fields fs ≤ n) (λ fs. depth_fields fs ≤ n)
                    (object_loop value fuel u) _ (object_loop-depth fuel u) λ rest v k. omega arith)
                (omega arith)

  parse_array-depth : (fuel : ℕ) (s : Bytes) → Yields (DepthLe (suc n)) (parse_array value fuel s)
  unfolding parse_array depth
  parse_array-depth fuel s = elim (Option-cases (strip_prefix (b']' ∷ []) (skip_ws s))) [
    | inl e ↦
        rw (e, Yields)
          (Yields-bind (λ vs. depth_items vs ≤ n) (DepthLe (suc n))
            (array_loop value fuel (skip_ws s)) _ (array_loop-depth fuel (skip_ws s))
            λ children r h. omega arith)
    | inr (r, e) ↦ rw (e, Yields) (omega arith)
  ]

  parse_object-depth : (fuel : ℕ) (s : Bytes) → Yields (DepthLe (suc n)) (parse_object value fuel s)
  unfolding parse_object depth
  parse_object-depth fuel s = elim (Option-cases (strip_prefix (b'}' ∷ []) (skip_ws s))) [
    | inl e ↦
        rw (e, Yields)
          (Yields-bind (λ vs. depth_fields vs ≤ n) (DepthLe (suc n))
            (object_loop value fuel (skip_ws s)) _ (object_loop-depth fuel (skip_ws s))
            λ children r h. omega arith)
    | inr (r, e) ↦ rw (e, Yields) (omega arith)
  ]

nonempty_number-depth : (n : ℕ) (p : Bytes × Bytes) → Yields (DepthLe n) (nonempty_number p)
unfolding nonempty_number depth
nonempty_number-depth n ([], s) = tt
nonempty_number-depth n (c ∷ l, s) = omega arith

parse_literal-depth :
    (n : ℕ) (s word : Bytes) (node : Json)
    → depth node ≤ n
    → Yields (DepthLe n) (parse_literal s word node)
unfolding parse_literal
parse_literal-depth n s word node h = ground arith

parse_text-depth :
    (n : ℕ) (s : Bytes) → Yields (DepthLe n) (parse_string_body s >>= λ text r. ok (string text) r)
unfolding depth
parse_text-depth n s =
    Yields-bind (λ _. Unit) (DepthLe n) (parse_string_body s) _ (Yields-any (parse_string_body s))
      λ t r h. omega arith

parse_scalar-depth : (n c : ℕ) (s : Bytes) → Yields (DepthLe n) (parse_scalar c s)
unfolding parse_scalar parse_number depth
parse_scalar-depth n c s = ground (
  arith,
  parse_text-depth n s,
  parse_literal-depth n (c ∷ s) (codes "true") (bool true),
  parse_literal-depth n (c ∷ s) (codes "false") (bool false),
  parse_literal-depth n (c ∷ s) (codes "null") null,
  nonempty_number-depth n (number_tail [] (c ∷ s)),
)

parse_switch-depth :
    (n fuel : ℕ) (value : Bytes → Parsed Json) (s : Bytes)
    → ((s : Bytes) → Yields (DepthLe n) (value s))
    → Yields (DepthLe (suc n)) (parse_switch (some value) fuel s)
unfolding parse_switch
parse_switch-depth n fuel value [] h = tt
parse_switch-depth n fuel value (c ∷ s) h = ground (
  arith,
  parse_object-depth n value h fuel s,
  parse_array-depth n value h fuel s,
  parse_scalar-depth (suc n) c s,
)

parse_switch-depth_none : (fuel : ℕ) (s : Bytes) → Yields (DepthLe 0) (parse_switch none fuel s)
unfolding parse_switch
parse_switch-depth_none fuel [] = tt
parse_switch-depth_none fuel (c ∷ s) = ground (arith, parse_scalar-depth 0 c s)

parse_value-depth : (room fuel : ℕ) (s : Bytes) → Yields (DepthLe room) (parse_value room fuel s)
unfolding parse_value
parse_value-depth zero fuel s = parse_switch-depth_none fuel (skip_ws s)
parse_value-depth (suc room) fuel s =
    parse_switch-depth room fuel (parse_value room fuel) (skip_ws s)
      (λ t. parse_value-depth room fuel t)

parse_document-depth : (s : Bytes) → Yields (DepthLe max_depth) (parse_document s)
unfolding parse_document
parse_document-depth s =
    Yields-bind (DepthLe max_depth) (DepthLe max_depth) (parse_value max_depth (suc (length s)) s) _
      (parse_value-depth max_depth (suc (length s)) s) λ root r h. ground arith

parse_value-too_deep :
    (room fuel : ℕ) (s : Bytes) → parse_value room (suc fuel) (replicate (suc room) b'[' ++ s) ≡ bad
unfolding parse_value parse_switch parse_array array_loop skip_ws is_ws strip_prefix
parse_value-too_deep zero fuel s = refl
parse_value-too_deep (suc room) fuel s = rw (parse_value-too_deep room fuel s)

parse-document :
    {v : Json} (s : Bytes) → parse s ≡ some v → (r : Bytes) × (parse_document s ≡ ok v r)
unfolding parse
parse-document s = go (parse_document s)
  where
    go :
        {v : Json} (p : Parsed Json)
        → (elim p as (λ _. Option Json) [ ok root r ↦ some root | bad ↦ none | out_of_fuel ↦ none ])
          ≡ some v
        → (r : Bytes) × (p ≡ ok v r)
    go (ok root r) e = (r, cc)
    go bad e = cc
    go out_of_fuel e = cc

-- A tree that the reader hands out nests at most FL_JSON_MAX_DEPTH brackets.
pub parse-depth : (s : Bytes) {v : Json} → parse s ≡ some v → depth v ≤ max_depth
parse-depth s e =
    let (r, read) = parse-document s e in
    subst (Yields (DepthLe max_depth)) read (parse_document-depth s)

-- A text that opens more than FL_JSON_MAX_DEPTH arrays is refused, whatever follows them.
pub parse_too_deep : (s : Bytes) → parse (replicate (suc max_depth) b'[' ++ s) ≡ none
unfolding parse
parse_too_deep s =
    let text = replicate (suc max_depth) b'[' ++ s in
    let read : parse_document text ≡ bad =
      unfold parse_document in
      ap (λ (p : Parsed Json). p >>= λ root r. if at_end (skip_ws r) then ok root [] else bad)
        (parse_value-too_deep max_depth (length text) s) in
    rw (read, parse)
