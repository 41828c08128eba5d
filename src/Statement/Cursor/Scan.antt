-- ===== src/Statement/Cursor/Scan.antt =====
-- The loop of an application over SQLFetch of src/results.c, against the rows of the current set.
use frostlake_odbc.Base.{
  ℕ, zero, suc, ◌+◌, ◌-◌, ◌≡◌, ◌≤◌, ◌<◌, refl, ap, ◌∙◌, arith, Bool, true, false, Option, none,
  some, List, [], ◌∷◌, leb, if◌then◌else◌,
}
use frostlake_odbc.Response.Model.{ResultSet}
use frostlake_odbc.Results.Convert.Model.{Return, success, no_more, Conversion}
use frostlake_odbc.Statement.State.{Stmt, stmt_current_set, set_diag}
use frostlake_odbc.Statement.Cursor.{
  Fetched, deliver_bound, fetch_limit, advance, fetch_row, fetch_from, fetch,
}

unfoldable pub is_no_more : Return → Bool
is_no_more no_more = true
is_no_more _ = false

unfoldable pub visited : ℕ → Option (List ℕ) → Option (List ℕ)
visited row none = none
visited row (some rows) = some (row ∷ rows)

unfoldable pub visit : (Stmt → Option (List ℕ)) → Option (Stmt × Return × Fetched) → Option (List ℕ)
visit next none = none
visit next (some (s, code, fetched)) =
    if is_no_more code then some [] else visited (s.next_row - 1) (next s)

-- while ((rc = SQLFetch(stmt)) != SQL_NO_DATA): the numbers of the rows that it stops on.
unfoldable pub fetch_all : ℕ → Stmt → Option (List ℕ)
fetch_all zero s = none
fetch_all (suc fuel) s = visit (fetch_all fuel) (fetch s)

-- n, n + 1, and so on: `k` numbers.
unfoldable pub upto : ℕ → ℕ → List ℕ
upto n zero = []
upto n (suc k) = n ∷ upto (n + 1) k

-- The bound columns read within bounds, and no conversion answers SQL_NO_DATA.
unfoldable pub Delivers : Option (Return × List (ℕ × Conversion)) → Type 0
Delivers none = ⊥
Delivers (some (code, delivered)) = is_no_more code ≡ false

unfoldable pub AllDeliver : ResultSet → Stmt → Type 0
AllDeliver set s =
    (row : ℕ) → row < set.row_count → Delivers (deliver_bound set row 0 s.bound_cols success)

fetch-park :
    (s : Stmt) (set : ResultSet) (next : Stmt → Option (List ℕ))
    → leb (fetch_limit set s.max_rows) s.next_row ≡ true
    → visit next (fetch_from s (some set)) ≡ some []
unfolding fetch_from visit is_no_more
fetch-park s set next l = rw l refl

visit-row :
    (next : Stmt → Option (List ℕ)) (s : Stmt) (found : Option (Return × List (ℕ × Conversion)))
    (rows : List ℕ)
    → Delivers found
    → ((code : Return) → next (set_diag code s) ≡ some rows)
    → visit next (fetch_row s found) ≡ some ((s.next_row - 1) ∷ rows)
unfolding visit fetch_row Delivers visited set_diag
visit-row next s none rows d h = elim d [ ]
visit-row next s (some (code, delivered)) rows d h = rw (d, h code) refl

row-advance : (s : Stmt) → (advance s).next_row - 1 ≡ s.next_row
unfolding advance
row-advance s = omega arith

fetch-step :
    (s : Stmt) (set : ResultSet) (rows : List ℕ) (next : Stmt → Option (List ℕ))
    → leb (fetch_limit set s.max_rows) s.next_row ≡ false
    → Delivers (deliver_bound set s.next_row 0 s.bound_cols success)
    → ((code : Return) → next (set_diag code (advance s)) ≡ some rows)
    → visit next (fetch_from s (some set)) ≡ some (s.next_row ∷ rows)
unfolding fetch_from
fetch-step s set rows next l d h =
    rw l (visit-row next (advance s) _ rows d h ∙ ap (λ n. some (n ∷ rows)) (row-advance s))

Delivers-row :
    (s : Stmt) (set : ResultSet)
    → AllDeliver set s
    → s.next_row < set.row_count
    → Delivers (deliver_bound set s.next_row 0 s.bound_cols success)
unfolding AllDeliver
Delivers-row s set d l = d s.next_row l

pub limit-row_count : (set : ResultSet) (max : ℕ) → fetch_limit set max ≤ set.row_count
unfolding fetch_limit
limit-row_count set max = ground arith

-- What the loop rests on is as it was, on the next row.
kept-current :
    (s : Stmt) (code : Return) {set : ResultSet}
    → stmt_current_set s ≡ some set
    → stmt_current_set (set_diag code (advance s)) ≡ some set
unfolding stmt_current_set set_diag advance
kept-current s code e = e

kept-AllDeliver :
    (s : Stmt) (code : Return) (set : ResultSet)
    → AllDeliver set s
    → AllDeliver set (set_diag code (advance s))
unfolding AllDeliver set_diag advance
kept-AllDeliver s code set d = d

kept-limit :
    (s : Stmt) (code : Return) (set : ResultSet) (k : ℕ)
    → s.next_row + suc k ≡ fetch_limit set s.max_rows
    → (set_diag code (advance s)).next_row + k
      ≡ fetch_limit set (set_diag code (advance s)).max_rows
unfolding set_diag advance
kept-limit s code set k h = omega (arith, h)

kept-upto :
    (s : Stmt) (code : Return) (k : ℕ)
    → upto (set_diag code (advance s)).next_row k ≡ upto (s.next_row + 1) k
unfolding set_diag advance
kept-upto s code k = refl

scan :
    (k : ℕ) (s : Stmt) (set : ResultSet)
    → stmt_current_set s ≡ some set
    → AllDeliver set s
    → s.next_row + k ≡ fetch_limit set s.max_rows
    → fetch_all (suc k) s ≡ some (upto s.next_row k)
unfolding fetch_all fetch upto
scan zero s set e d h = rw e (fetch-park s set _ (ground arith))
scan (suc k) s set e d h = rw e (
    fetch-step s set (upto (s.next_row + 1) k) (fetch_all (suc k)) (ground arith)
      (Delivers-row s set d (omega (arith, h, limit-row_count set s.max_rows)))
      (λ code.
        scan k (set_diag code (advance s)) set (kept-current s code e)
          (kept-AllDeliver s code set d) (kept-limit s code set k h)
        ∙ ap some (kept-upto s code k)))

-- From in front of the first row of a set, whose bound columns deliver in each of its rows, the
-- loop over SQLFetch ends, and it has stopped on the rows from the first up to the row limit or the
-- set's last row, each once and in order; fuel for one fetch more than rows is enough.
pub fetch_all-upto :
    (s : Stmt) (set : ResultSet)
    → stmt_current_set s ≡ some set
    → s.next_row ≡ 0
    → AllDeliver set s
    → fetch_all (suc (fetch_limit set s.max_rows)) s ≡ some (upto 0 (fetch_limit set s.max_rows))
fetch_all-upto s set e z d =
    scan (fetch_limit set s.max_rows) s set e d (omega (arith, z))
    ∙ ap (λ n. some (upto n (fetch_limit set s.max_rows))) z
