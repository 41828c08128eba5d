-- ===== src/Bind/Substitute/Rounds.antt =====
-- The rounds of the two loops of src/execute.c over a statement's markers, by what they find.
use frostlake_odbc.Base.{
  ℕ, zero, suc, ◌+◌, ◌-◌, ◌≤◌, true, false, ◌≡◌, refl, none, some, List, [], ◌∷◌, ◌++◌, ◌==◌, Bytes,
  length, take, arith, Bool-cases, Option-cases, inl, inr,
}
use frostlake_odbc.Sql.Scanner.{skip, count_loop}
use frostlake_odbc.Bind.Param.{Param}
use frostlake_odbc.Bind.Substitute.{bind_marker, substitute_loop}

-- What one round of a loop over a statement finds in front.
pub data Front (c : ℕ) (s : Bytes) : Type 0 where
  stretch : (past : Bytes) → skip (c ∷ s) ≡ some past → Front c s
  mark : skip (c ∷ s) ≡ none → (c == b'?') ≡ true → Front c s
  plain : skip (c ∷ s) ≡ none → (c == b'?') ≡ false → Front c s

pub front : (c : ℕ) (s : Bytes) → Front c s
front c s = elim (Option-cases (skip (c ∷ s))) [
  | inr (past, e) ↦ stretch past e
  | inl e ↦ elim (Bool-cases (c == b'?')) [ inl q ↦ mark e q | inr q ↦ plain e q ]
]

-- One round of each loop, by what it finds.
module _ (fuel : ℕ) (c : ℕ) (s : Bytes) where
  pub count_loop-stretch :
      (n : ℕ) {past : Bytes}
      → skip (c ∷ s) ≡ some past
      → count_loop (suc fuel) n (c ∷ s) ≡ count_loop fuel n past
  unfolding count_loop
  count_loop-stretch n e = rw (e, count_loop) refl

  pub count_loop-mark :
      (n : ℕ)
      → skip (c ∷ s) ≡ none
      → (c == b'?') ≡ true
      → count_loop (suc fuel) n (c ∷ s) ≡ count_loop fuel (n + 1) s
  unfolding count_loop
  count_loop-mark n e q = rw (e, q, count_loop) refl

  pub count_loop-plain :
      (n : ℕ)
      → skip (c ∷ s) ≡ none
      → (c == b'?') ≡ false
      → count_loop (suc fuel) n (c ∷ s) ≡ count_loop fuel n s
  unfolding count_loop
  count_loop-plain n e q = rw (e, q, count_loop) refl

  module _ (buf : Bytes) (params : List Param) where
    pub substitute_loop-stretch :
        {past : Bytes}
        → skip (c ∷ s) ≡ some past
        → substitute_loop (suc fuel) buf params (c ∷ s)
          ≡ substitute_loop fuel (buf ++ take (length (c ∷ s) - length past) (c ∷ s)) params past
    unfolding substitute_loop
    substitute_loop-stretch e = rw (e, substitute_loop) refl

    pub substitute_loop-mark :
        skip (c ∷ s) ≡ none
        → (c == b'?') ≡ true
        → substitute_loop (suc fuel) buf params (c ∷ s)
          ≡ bind_marker (λ more left. substitute_loop fuel more left s) buf params
    unfolding substitute_loop
    substitute_loop-mark e q = rw (e, q, substitute_loop) refl

    pub substitute_loop-plain :
        skip (c ∷ s) ≡ none
        → (c == b'?') ≡ false
        → substitute_loop (suc fuel) buf params (c ∷ s)
          ≡ substitute_loop fuel (buf ++ (c ∷ [])) params s
    unfolding substitute_loop
    substitute_loop-plain e q = rw (e, q, substitute_loop) refl

pub count_loop-ge : (fuel n : ℕ) (s : Bytes) → n ≤ count_loop fuel n s
unfolding count_loop
count_loop-ge zero n s = omega arith
count_loop-ge (suc fuel) n [] = omega arith
count_loop-ge (suc fuel) n (c ∷ s) = elim (front c s) [
  | stretch past e ↦ omega (arith, count_loop-stretch fuel c s n e, count_loop-ge fuel n past)
  | mark e q ↦ omega (arith, count_loop-mark fuel c s n e q, count_loop-ge fuel (n + 1) s)
  | plain e q ↦ omega (arith, count_loop-plain fuel c s n e q, count_loop-ge fuel n s)
]
