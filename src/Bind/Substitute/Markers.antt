-- ===== src/Bind/Substitute/Markers.antt =====
-- The markers of `substitute_params` and `count_placeholders`, both of src/execute.c.
use frostlake_odbc.Base.{
  ℕ, zero, suc, ◌+◌, ◌-◌, ◌≤◌, ◌≡◌, refl, ap, sym, ◌∙◌, some, List, [], ◌∷◌, ◌++◌, append_assoc,
  append-nil, Bytes, length, take, All, arith, ◌↔◌, length-append,
}
use frostlake_odbc.Sql.Scanner.{skip, count_loop, count_placeholders}
use frostlake_odbc.Sql.Scanner.Progress.{skip-EndsIn, length-skip}
use frostlake_odbc.Bind.Substitute.Rounds.{
  stretch, mark, plain, front, count_loop-stretch, count_loop-mark, count_loop-plain,
  substitute_loop-stretch, substitute_loop-mark, substitute_loop-plain, count_loop-ge,
}
use frostlake_odbc.Bind.Param.{Param, Rendered, rendered, refused, refuse, append_param_literal}
use frostlake_odbc.Bind.Substitute.{bind_marker, substitute_loop, substitute_params}

take-append : (xs ys : Bytes) → take (length (xs ++ ys) - length ys) (xs ++ ys) ≡ xs
take-append xs ys =
    ap (λ n. take n (xs ++ ys)) {y = length xs} (omega (arith, length-append xs ys)) ∙ go xs
  where
    go : (xs : Bytes) → take (length xs) (xs ++ ys) ≡ xs
    go [] = go-nil ys
      where
        go-nil : (ys : Bytes) → take 0 ys ≡ []
        go-nil ys = refl
    go (x ∷ xs) = ap (◌∷◌ x) (go xs)

-- The copied stretch and what is past it are the text.
stretch-append :
    (c : ℕ) (s past : Bytes)
    → skip (c ∷ s) ≡ some past
    → take (length (c ∷ s) - length past) (c ∷ s) ++ past ≡ c ∷ s
stretch-append c s past e =
    let (xs, q, h) = skip-EndsIn (c ∷ s) e in
    ap (λ t. take (length t - length past) t ++ past) q
    ∙ ap (λ t. t ++ past) (take-append xs past)
    ∙ sym q

unmarked_loop :
    (fuel n : ℕ) (buf : Bytes) (params : List Param) (s : Bytes)
    → length s ≤ fuel
    → count_loop fuel n s ≡ n
    → substitute_loop fuel buf params s ≡ rendered (buf ++ s)
unfolding count_loop substitute_loop
unmarked_loop zero n buf params [] h k = ap rendered (sym (append-nil buf))
unmarked_loop zero n buf params (c ∷ s) h k = absurd (omega arith)
unmarked_loop (suc fuel) n buf params [] h k = ap rendered (sym (append-nil buf))
unmarked_loop (suc fuel) n buf params (c ∷ s) h k = elim (front c s) [
  | stretch past e ↦
      substitute_loop-stretch fuel c s buf params e
      ∙ unmarked_loop fuel n _ params past (omega (arith, length-skip (c ∷ s) e))
          (sym (count_loop-stretch fuel c s n e) ∙ k)
      ∙ ap rendered (append_assoc buf _ past ∙ ap (λ t. buf ++ t) (stretch-append c s past e))
  | mark e q ↦
      absurd (omega (arith, count_loop-ge fuel (n + 1) s, count_loop-mark fuel c s n e q, k))
  | plain e q ↦
      substitute_loop-plain fuel c s buf params e q
      ∙ unmarked_loop fuel n _ params s (omega arith) (sym (count_loop-plain fuel c s n e q) ∙ k)
      ∙ ap rendered (append_assoc buf _ s)
]

-- A statement without a marker that counts is sent as it is, whatever is bound.
pub substitute_params-unmarked :
    (params : List Param) (sql : Bytes)
    → count_placeholders sql ≡ 0
    → substitute_params params sql ≡ rendered sql
unfolding substitute_params count_placeholders
substitute_params-unmarked params sql h = unmarked_loop (length sql) 0 [] params sql (omega arith) h

-- A parameter that renders behind any text.
abbrev pub IsRenderable : Param → Type 0
IsRenderable p = (buf : Bytes) → (out : Bytes) × (append_param_literal buf p ≡ rendered out)

abbrev HasOutput : Rendered → Type 0
HasOutput r = (out : Bytes) × (r ≡ rendered out)

-- The rule of one marker, over the loop behind it.
renders_mark :
    (next : Bytes → List Param → Rendered) (buf : Bytes) (params : List Param)
    → All IsRenderable params
    → 1 ≤ length params
    → ((more : Bytes) (left : List Param)
        → All IsRenderable left
        → length params ≡ length left + 1
        → HasOutput (next more left))
    → HasOutput (bind_marker next buf params)
unfolding bind_marker
renders_mark next buf [] all h k = absurd (omega arith)
renders_mark next buf (p ∷ params) all h k =
    let (more, e) = all.0 buf in
    let (out, q) = k more params all.1 (omega arith) in (out, rw (e, bind_marker) q)

renders_loop :
    (fuel n : ℕ) (buf : Bytes) (params : List Param) (s : Bytes)
    → All IsRenderable params
    → count_loop fuel n s ≤ n + length params
    → HasOutput (substitute_loop fuel buf params s)
unfolding substitute_loop
renders_loop zero n buf params s all h = (buf, refl)
renders_loop (suc fuel) n buf params [] all h = (buf, refl)
renders_loop (suc fuel) n buf params (c ∷ s) all h = elim (front c s) [
  | stretch past e ↦
      let (out, q) =
        renders_loop fuel n (buf ++ take (length (c ∷ s) - length past) (c ∷ s)) params past all
          (omega (arith, count_loop-stretch fuel c s n e)) in
      (out, substitute_loop-stretch fuel c s buf params e ∙ q)
  | mark e q ↦
      let counted = count_loop-mark fuel c s n e q in
      let (out, r) =
        renders_mark (λ more left. substitute_loop fuel more left s) buf params all
          (omega (arith, counted, count_loop-ge fuel (n + 1) s))
          (λ more left every size.
            renders_loop fuel (n + 1) more left s every (omega (arith, counted, size))) in
      (out, substitute_loop-mark fuel c s buf params e q ∙ r)
  | plain e q ↦
      let (out, r) =
        renders_loop fuel n (buf ++ (c ∷ [])) params s all
          (omega (arith, count_loop-plain fuel c s n e q)) in
      (out, substitute_loop-plain fuel c s buf params e q ∙ r)
]

counts_mark :
    (next : Bytes → List Param → Rendered) (buf out : Bytes) (params : List Param)
    → bind_marker next buf params ≡ rendered out
    → (more : Bytes) × (left : List Param) × (length params ≡ length left + 1)
      × (next more left ≡ rendered out)
unfolding bind_marker refuse
counts_mark next buf out [] h = absurd (ground (arith, h))
counts_mark next buf out (p ∷ params) h = go (append_param_literal buf p) h
  where
    go :
        (r : Rendered)
        → (elim r as (λ _. Rendered) [
          | rendered more ↦ next more params
          | refused diag ↦ refused diag
        ])
          ≡ rendered out
        → (more : Bytes) × (left : List Param) × (suc (length params) ≡ length left + 1)
          × (next more left ≡ rendered out)
    go (rendered more) k = (more, params, omega arith, k)
    go (refused diag) k = absurd (ground (arith, k))

counts_loop :
    (fuel n : ℕ) (buf out : Bytes) (params : List Param) (s : Bytes)
    → substitute_loop fuel buf params s ≡ rendered out
    → count_loop fuel n s ≤ n + length params
unfolding count_loop
counts_loop zero n buf out params s h = omega arith
counts_loop (suc fuel) n buf out params [] h = omega arith
counts_loop (suc fuel) n buf out params (c ∷ s) h = elim (front c s) [
  | stretch past e ↦ omega (
    arith,
    count_loop-stretch fuel c s n e,
    counts_loop fuel n _ out params past (sym (substitute_loop-stretch fuel c s buf params e) ∙ h),
  )
  | mark e q ↦
      let (more, left, size, k) =
        counts_mark _ buf out params (sym (substitute_loop-mark fuel c s buf params e q) ∙ h) in
      omega
        (arith, count_loop-mark fuel c s n e q, size, counts_loop fuel (n + 1) more out left s k)
  | plain e q ↦ omega (
    arith,
    count_loop-plain fuel c s n e q,
    counts_loop fuel n _ out params s (sym (substitute_loop-plain fuel c s buf params e q) ∙ h),
  )
]

-- When every parameter that the statement has renders, the substitution produces a statement
-- exactly when the text has no more markers than there are parameters.
pub substitute_params-rendered_iff :
    (params : List Param) (sql : Bytes)
    → All IsRenderable params
    → ((out : Bytes) × (substitute_params params sql ≡ rendered out))
      ↔ (count_placeholders sql ≤ length params)
unfolding substitute_params count_placeholders
substitute_params-rendered_iff params sql all = (
  (λ h. omega (arith, counts_loop (length sql) 0 [] h.0 params sql h.1)),
  (λ h. renders_loop (length sql) 0 [] params sql all (omega (arith, h))),
)
