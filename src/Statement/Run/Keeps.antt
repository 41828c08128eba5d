-- ===== src/Statement/Run/Keeps.antt =====
-- The cursor's part in the invariant of a statement: SQLFetch and SQLGetData.
use frostlake_odbc.Base.{
  ℕ, ◌+◌, ◌≡◌, ◌≤◌, refl, arith, Bool, true, false, Option, none, some, List, All, leb, Bool-cases,
  inl, inr, subst,
}
use frostlake_odbc.Response.Model.{ResultSet}
use frostlake_odbc.Results.Convert.Model.{CType, Buffer, Return, success, Conversion, Converted}
use frostlake_odbc.Proto.Execute.Full.{IsFull}
use frostlake_odbc.Response.Shape.{Covers}
use frostlake_odbc.Statement.State.{Stmt, stmt_current_set, set_diag}
use frostlake_odbc.Statement.Cursor.{
  fetch_limit, park, advance, fetch_row, fetch_from, fetch, fetch_scroll, seek, keep_offset, got,
  refuse_data, get_column, get_data_from, is_positioned, column_index, deliver_bound,
}
use frostlake_odbc.Statement.Cursor.Scan.{limit-row_count}
use frostlake_odbc.Statement.Run.{after_fetch, after_data}
use frostlake_odbc.Statement.Run.Sound.{sets_of, Covered, InSet, IsSound}

unfoldable pub SoundAfter : Option Stmt → Type 0
SoundAfter none = Unit
SoundAfter (some s) = IsSound s

-- The cursor moves within the current set.
moved :
    (s : Stmt) (set : ResultSet) (n : ℕ)
    → stmt_current_set s ≡ some set
    → IsSound s
    → n ≤ set.row_count + 1
    → Covered s.synth × All IsFull (sets_of s.response) × InSet n (stmt_current_set s)
unfolding IsSound InSet
moved s set n e h l = (h.0, h.1, rw e (full, l))
  where
    full : Covers set
    full = (subst (InSet s.next_row) e h.2).0

fetch_row-SoundAfter :
    (s : Stmt) (found : Option (Return × List (ℕ × Conversion)))
    → IsSound s
    → SoundAfter (after_fetch (fetch_row s found))
unfolding fetch_row after_fetch SoundAfter set_diag IsSound stmt_current_set
fetch_row-SoundAfter s none h = tt
fetch_row-SoundAfter s (some (code, delivered)) h = h

fetch_from-SoundAfter :
    (s : Stmt) (o : Option ResultSet)
    → stmt_current_set s ≡ o
    → IsSound s
    → SoundAfter (after_fetch (fetch_from s o))
unfolding fetch_from after_fetch SoundAfter set_diag
fetch_from-SoundAfter s none e h = unfold IsSound stmt_current_set in h
fetch_from-SoundAfter s (some set) e h =
    elim (Bool-cases (leb (fetch_limit set s.max_rows) s.next_row)) [
      | inl l ↦ rw l (parked)
      | inr l ↦ rw l (
          fetch_row-SoundAfter (advance s) (deliver_bound set s.next_row 0 s.bound_cols success)
            (advanced l))
    ]
  where
    parked : IsSound (park set s)
    parked =
        unfold IsSound park set_diag stmt_current_set in
        moved s set (set.row_count + 1) e h (omega arith)

    advanced : leb (fetch_limit set s.max_rows) s.next_row ≡ false → IsSound (advance s)
    advanced l =
        unfold IsSound advance stmt_current_set in
        moved s set (s.next_row + 1) e h (ground (arith, limit-row_count set s.max_rows))

pub fetch-SoundAfter : (s : Stmt) → IsSound s → SoundAfter (after_fetch (fetch s))
unfolding fetch
fetch-SoundAfter s h = fetch_from-SoundAfter s (stmt_current_set s) refl h

pub fetch_scroll-SoundAfter :
    (next : Bool) (s : Stmt) → IsSound s → SoundAfter (after_fetch (fetch_scroll next s))
unfolding fetch_scroll after_fetch SoundAfter set_diag IsSound stmt_current_set
fetch_scroll-SoundAfter true s h = fetch-SoundAfter s h
fetch_scroll-SoundAfter false s h = h

-- Moving the offset or the column of SQLGetData leaves the cursor where it is.
sought-IsSound : (number : ℕ) (s : Stmt) → IsSound s → IsSound (seek number s)
unfolding seek IsSound stmt_current_set
sought-IsSound number s h = h

got-SoundAfter : (s : Stmt) (c : Converted) → IsSound s → SoundAfter (after_data (got s c))
unfolding got after_data SoundAfter
got-SoundAfter s none h = tt
got-SoundAfter s (some c) h = kept c.offset
  where
    kept : (o : Option ℕ) → IsSound (set_diag c.code (keep_offset o s))
    kept none = unfold set_diag keep_offset IsSound stmt_current_set in h
    kept (some n) = unfold set_diag keep_offset IsSound stmt_current_set in h

refused-SoundAfter :
    (s : Stmt) (c : Conversion) → IsSound s → SoundAfter (after_data (refuse_data s c))
unfolding refuse_data after_data SoundAfter set_diag IsSound stmt_current_set
refused-SoundAfter s c h = h

get_column-SoundAfter :
    (number : ℕ) (c : CType) (b : Buffer) (s : Stmt) (set : ResultSet) (i : Option ℕ)
    → IsSound s
    → SoundAfter (after_data (get_column number c b s set i))
unfolding get_column
get_column-SoundAfter number c b s set none h = refused-SoundAfter s _ h
get_column-SoundAfter number c b s set (some i) h =
    got-SoundAfter (seek number s) _ (sought-IsSound number s h)

pub get_data_from-SoundAfter :
    (number : ℕ) (c : CType) (b : Buffer) (s : Stmt) (o : Option ResultSet)
    → IsSound s
    → SoundAfter (after_data (get_data_from number c b s o))
unfolding get_data_from
get_data_from-SoundAfter number c b s none h = refused-SoundAfter s _ h
get_data_from-SoundAfter number c b s (some set) h = elim (Bool-cases (is_positioned s set)) [
  | inl e ↦ rw e (get_column-SoundAfter number c b s set (column_index set number) h)
  | inr e ↦ rw e (refused-SoundAfter s _ h)
]
