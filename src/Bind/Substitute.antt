-- ===== src/Bind/Substitute.antt =====
-- `has_bound_params` and `substitute_params` of src/execute.c, and what SQLExecDirect sends.
mod Rounds
pub mod Markers
use frostlake_odbc.Base.{
  ℕ, zero, suc, ◌-◌, Bool, true, false, ◌&&◌, ◌||◌, none, some, List, [], ◌∷◌, ◌++◌, ◌==◌, ltb,
  if◌then◌else◌, Bytes, codes, length, take,
}
use frostlake_odbc.Sql.Scanner.{skip, count_placeholders}
use frostlake_odbc.Bind.Param.{Param, Rendered, rendered, refused, refuse, append_param_literal}

unfoldable pub has_bound_params : List Param → Bool
has_bound_params [] = false
has_bound_params (p ∷ params) = p.bound || has_bound_params params

-- The next parameter in place of a marker; `next` is the loop behind it.
unfoldable pub bind_marker : (Bytes → List Param → Rendered) → Bytes → List Param → Rendered
bind_marker next buf [] = refuse (codes "07002") (codes "More placeholders than bound parameters")
bind_marker next buf (p ∷ params) = elim (append_param_literal buf p) [
  | rendered more ↦ next more params
  | refused diag ↦ refused diag
]

-- The loop of `substitute_params` over the text that is left, on fuel: each round moves forward.
unfoldable pub substitute_loop : ℕ → Bytes → List Param → Bytes → Rendered
substitute_loop zero buf params s = rendered buf
substitute_loop (suc fuel) buf params [] = rendered buf
substitute_loop (suc fuel) buf params (c ∷ s) = elim (skip (c ∷ s)) [
  | some past ↦
      substitute_loop fuel (buf ++ take (length (c ∷ s) - length past) (c ∷ s)) params past
  | none ↦ elim (c == b'?') [
    | true ↦ bind_marker (λ more left. substitute_loop fuel more left s) buf params
    | false ↦ substitute_loop fuel (buf ++ (c ∷ [])) params s
  ]
]

unfoldable pub substitute_params : List Param → Bytes → Rendered
substitute_params params sql = substitute_loop (length sql) [] params sql

-- The statement that SQLExecDirect and SQLExecute run for a text.
unfoldable pub final_sql : List Param → Bytes → Rendered
final_sql params sql =
    if has_bound_params params && ltb 0 (count_placeholders sql)
    then substitute_params params sql
    else rendered sql
