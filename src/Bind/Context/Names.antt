-- ===== src/Bind/Context/Names.antt =====
-- Names through `fl_strbuf_append_ident` of src/util.c and `track_context` of src/execute.c.
use frostlake_odbc.Base.{
  ℕ, true, false, ◌≡◌, refl, ap, ◌∙◌, ◌||◌, ◌&&◌, some, [], ◌∷◌, ◌++◌, ◌==◌, leb, if◌then◌else◌,
  Bytes, codes, length, length-append, map, sym, arith, Bool-cases, inl, inr,
}
use frostlake_odbc.Sql.Scanner.{is_lower}
use frostlake_odbc.Sql.Ident.{ident_is_bare, ident_is_quoted, double_quotes, append_ident, to_upper}
use frostlake_odbc.Response.Types.{starts_ignoring_case}
use frostlake_odbc.Dbc.{Dbc}
use frostlake_odbc.Bind.Context.{
  skip_white, skip_spaces, is_tail, all_tail, trim_tail, last, init, undouble, tracked_name,
  set_database, track_context,
}

abbrev closing : Bytes
closing = b'"' ∷ []

all_tail-closing : (s : Bytes) → all_tail (s ++ closing) ≡ false
unfolding all_tail is_tail
all_tail-closing [] = refl
all_tail-closing (c ∷ s) = ground (arith, all_tail-closing s)

trim_tail-closing : (s : Bytes) → trim_tail (s ++ closing) ≡ s ++ closing
unfolding trim_tail all_tail is_tail
trim_tail-closing [] = refl
trim_tail-closing (c ∷ s) =
    ap (λ b. if b then [] else c ∷ trim_tail (s ++ closing)) (all_tail-closing (c ∷ s))
    ∙ ap (◌∷◌ c) (trim_tail-closing s)

last-closing : (s : Bytes) → last (s ++ closing) ≡ b'"'
unfolding last
last-closing [] = refl
last-closing (c ∷ []) = refl
last-closing (c ∷ d ∷ s) = last-closing (d ∷ s)

init-closing : (s : Bytes) → init (s ++ closing) ≡ s
unfolding init
init-closing [] = refl
init-closing (c ∷ []) = refl
init-closing (c ∷ d ∷ s) = ap (◌∷◌ c) (init-closing (d ∷ s))

undouble-other : (c : ℕ) (s : Bytes) → (c == b'"') ≡ false → undouble (c ∷ s) ≡ c ∷ undouble s
unfolding undouble
undouble-other c [] h = refl
undouble-other c (d ∷ s) h = rw h refl

undouble-double_quotes : (name : Bytes) → undouble (double_quotes name) ≡ name
unfolding undouble double_quotes
undouble-double_quotes [] = refl
undouble-double_quotes (c ∷ name) = elim (Bool-cases (c == b'"')) [
  | inl e ↦ rw (e, double_quotes, undouble, e) (ap (◌∷◌ c) (undouble-double_quotes name))
  | inr e ↦
      ap (λ b. undouble (if b then b'"' ∷ c ∷ double_quotes name else c ∷ double_quotes name)) e
      ∙ undouble-other c (double_quotes name) e
      ∙ ap (◌∷◌ c) (undouble-double_quotes name)
]

-- A name as it stands between quotes, in front of nothing.
abbrev quoted : Bytes → Bytes
quoted name = b'"' ∷ (double_quotes name ++ closing)

tracked_name-quoted : (name : Bytes) → tracked_name (quoted name) ≡ name
unfolding tracked_name
tracked_name-quoted name =
    let size : leb 2 (length (quoted name)) ≡ true =
      ground (arith, length-append (double_quotes name) closing) in
    ap
      (λ b.
        if b then undouble (init (double_quotes name ++ closing)) else map to_upper (quoted name))
      (ap (λ b. b && last (quoted name) == b'"') size
        ∙ ap (λ n. n == b'"') (last-closing (b'"' ∷ double_quotes name)))
    ∙ ap undouble (init-closing (double_quotes name))
    ∙ undouble-double_quotes name

track_context-quoted :
    (dbc : Dbc) (name : Bytes)
    → track_context dbc (codes "USE DATABASE " ++ quoted name)
      ≡ (record dbc { database = some name })
unfolding track_context starts_ignoring_case skip_white skip_spaces to_upper is_lower set_database
track_context-quoted dbc name =
    ap (set_database dbc) (trim_tail-closing (b'"' ∷ double_quotes name))
    ∙ set_database-quoted dbc name (tracked_name-quoted name)
  where
    set_database-quoted :
        (dbc : Dbc) (name : Bytes) {out : Bytes}
        → tracked_name (quoted name) ≡ out
        → set_database dbc (quoted name) ≡ (record dbc { database = some out })
    set_database-quoted dbc name e = ap (λ n. record dbc { database = some n }) e

-- A name that stands neither bare nor quoted already comes back whole: the USE DATABASE that the
-- driver builds for it makes `track_context` record exactly that name, with its case and its
-- quotes, as the current database, and nothing else changes.
pub track_context-append_ident :
    (dbc : Dbc) (name : Bytes) {sql : Bytes}
    → (ident_is_quoted name || ident_is_bare name) ≡ false
    → append_ident (codes "USE DATABASE ") name ≡ some sql
    → track_context dbc sql ≡ (record dbc { database = some name })
unfolding append_ident
track_context-append_ident dbc [] h e = absurd (ground (arith, e))
track_context-append_ident dbc (c ∷ s) {sql} h e =
    ap (track_context dbc) (sym (some-inj (built ∙ e))) ∙ track_context-quoted dbc (c ∷ s)
  where
    some-inj : {a b : Bytes} → some a ≡ some b → a ≡ b
    some-inj k = ground (arith, k)

    built :
        some (codes "USE DATABASE " ++ quoted (c ∷ s))
        ≡ append_ident (codes "USE DATABASE ") (c ∷ s)
    built = rw h refl
