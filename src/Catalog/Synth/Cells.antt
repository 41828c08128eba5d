-- ===== src/Catalog/Synth/Cells.antt =====
-- Where the entries of a synthesised set stand, for those who read it row by row.
use frostlake_odbc.Base.{
  ℕ, zero, suc, ◌+◌, ◌*◌, ◌≡◌, ◌<◌, refl, ap, ◌∙◌, arith, none, some, List, [], ◌∷◌, ◌++◌, map,
  length, get_elem?, get_elem?-append_left, get_elem?-append_right, replicate, Bytes,
}
use frostlake_odbc.Response.Model.{SqlType}
use frostlake_odbc.Statement.Cursor.{cell_at, both_found}
use frostlake_odbc.Catalog.Synth.{Entry, entry_cell, synth_column, synth_columns, blank_cell}
use frostlake_odbc.Catalog.Synth.Fill.{AllWide, filled, row_cells, made_rows, keep_row}

pub get_elem?-map {ℓ κ} :
    {A : Type ℓ} {B : Type κ} (f : A → B) (xs : List A) (i : ℕ) {a : A}
    → get_elem? xs i ≡ some a
    → get_elem? (map f xs) i ≡ some (f a)
get_elem?-map f [] i h = ground arith
get_elem?-map f (x ∷ xs) zero h = ap (λ o. elim o [ none ↦ some (f x) | some y ↦ some (f y) ]) h
get_elem?-map f (x ∷ xs) (suc i) h = get_elem?-map f xs i h

pub length-mapped {ℓ κ} :
    {A : Type ℓ} {B : Type κ} (f : A → B) (xs : List A) → length (map f xs) ≡ length xs
length-mapped f [] = refl
length-mapped f (x ∷ xs) = ap suc (length-mapped f xs)

get_elem?-synth_columns :
    (headers : List (Bytes × SqlType)) (c : ℕ) {header : Bytes × SqlType}
    → get_elem? headers c ≡ some header
    → get_elem? (synth_columns headers) c ≡ some (synth_column header)
unfolding synth_columns
get_elem?-synth_columns [] c h = ground arith
get_elem?-synth_columns (x ∷ headers) zero h =
    ap (λ o. elim o [ none ↦ some (synth_column x) | some y ↦ some (synth_column y) ]) h
get_elem?-synth_columns (x ∷ headers) (suc c) h = get_elem?-synth_columns headers c h

get_elem?-row_cells :
    (n : ℕ) (rows : List (List Entry)) (i c : ℕ) {entries : List Entry} {e : Entry}
    → AllWide n rows
    → get_elem? rows i ≡ some entries
    → get_elem? entries c ≡ some e
    → get_elem? (row_cells rows) (i * n + c) ≡ some (entry_cell e)
unfolding row_cells
get_elem?-row_cells n [] i c w h k = ground arith
get_elem?-row_cells n (row ∷ rows) zero c {entries} {e} w h k =
    ap (get_elem? (map entry_cell row ++ row_cells rows)) {x = 0 * n + c} {y = c} (omega arith)
    ∙ get_elem?-append_left (map entry_cell row) (row_cells rows) c
        (get_elem?-map entry_cell row c (first k))
  where
    first : get_elem? entries c ≡ some e → get_elem? row c ≡ some e
    first k = ap (λ o. elim o [ none ↦ none | some es ↦ get_elem? es c ]) h ∙ k
get_elem?-row_cells n (row ∷ rows) (suc i) c w h k =
    ap (get_elem? (map entry_cell row ++ row_cells rows)) {x = suc i * n + c}
      {y = length (map entry_cell row) + (i * n + c)}
      (grind (arith, w.0, length-mapped entry_cell row))
    ∙ get_elem?-append_right (map entry_cell row) (row_cells rows) (i * n + c)
    ∙ get_elem?-row_cells n rows i c w.1 h k

-- The entry in column `c` of the row with number `i`.
pub cell_at-filled :
    (headers : List (Bytes × SqlType)) (rows : List (List Entry)) (blanks count i c : ℕ)
    {entries : List Entry} {e : Entry} {header : Bytes × SqlType}
    → AllWide (length headers) rows
    → get_elem? rows i ≡ some entries
    → get_elem? entries c ≡ some e
    → get_elem? headers c ≡ some header
    → cell_at (filled headers (row_cells rows) blanks count) i c
      ≡ some (synth_column header, entry_cell e)
unfolding cell_at filled both_found
cell_at-filled headers rows blanks count i c w h k l =
    rw
      (
        get_elem?-synth_columns headers c l,
        get_elem?-append_left (row_cells rows) (replicate blanks blank_cell)
            (i * length headers + c) (get_elem?-row_cells (length headers) rows i c w h k),
      )
      refl

same_row : (f : ℕ → ℕ → List Entry) (m k n j : ℕ) → m ≡ k → n ≡ j → some (f m n) ≡ some (f k j)
same_row f m k n j p q = ap (λ a. some (f a n)) p ∙ ap (λ b. some (f k b)) q

-- A loop without `continue` adds a row in each round.
pub get_elem?-made_rows :
    (f : ℕ → ℕ → List Entry) (left r row i : ℕ)
    → i < left
    → get_elem? (made_rows (λ m n. some (f m n)) r left row) i ≡ some (f (r + i) (row + i))
unfolding made_rows keep_row
get_elem?-made_rows f zero r row i l = ground arith
get_elem?-made_rows f (suc left) r row zero l =
    same_row f r (r + 0) row (row + 0) (omega arith) (omega arith)
get_elem?-made_rows f (suc left) r row (suc i) l =
    get_elem?-made_rows f left (r + 1) (row + 1) i (omega arith)
    ∙ same_row f (r + 1 + i) (r + suc i) (row + 1 + i) (row + suc i) (omega arith) (omega arith)

pub length-made_rows_all :
    (f : ℕ → ℕ → List Entry) (left r row : ℕ)
    → length (made_rows (λ m n. some (f m n)) r left row) ≡ left
unfolding made_rows keep_row
length-made_rows_all f zero r row = refl
length-made_rows_all f (suc left) r row = ap suc (length-made_rows_all f left (r + 1) (row + 1))
