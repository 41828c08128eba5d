-- ===== src/Catalog/Synth/Fill.antt =====
-- Where the loops of src/catalog.c write in the array of `fl_synth_new`.
use frostlake_odbc.Base.{
  ℕ, zero, suc, ◌+◌, ◌*◌, ◌≤◌, ◌≡◌, refl, ap, sym, ◌∙◌, arith, Option, none, some, List, [], ◌∷◌,
  ◌++◌, append_assoc, append-nil, map, length, length-append, replicate, All, Bytes,
}
use frostlake_odbc.Response.Model.{SqlType, Cell, ResultSet}
use frostlake_odbc.Catalog.Synth.{
  Entry, entry_cell, blank_cell, write, with_cells, put_entry, put_row, then_put, add_row, put_made,
  fill, synth_columns,
}

write-append {ℓ} :
    {A : Type ℓ} (xs ys : List A) (a b : A)
    → write (xs ++ (b ∷ ys)) (length xs) a ≡ some (xs ++ (a ∷ ys))
unfolding write
write-append [] ys a b = refl
write-append (x ∷ xs) ys a b = rw (write-append xs ys a b)

unfoldable pub keep_row :
    Option (List Entry) → List (List Entry) → List (List Entry) → List (List Entry)
keep_row none skipped added = skipped
keep_row (some entries) skipped added = entries ∷ added

-- The rows that the rounds make, in order; the first of them would be row number `row`.
unfoldable pub made_rows : (ℕ → ℕ → Option (List Entry)) → ℕ → ℕ → ℕ → List (List Entry)
made_rows make r zero row = []
made_rows make r (suc left) row =
    keep_row (make r row) (made_rows make (r + 1) left row) (made_rows make (r + 1) left (row + 1))

unfoldable pub row_cells : List (List Entry) → List Cell
row_cells [] = []
row_cells (entries ∷ rows) = map entry_cell entries ++ row_cells rows

-- A set in the making: what has been written, and the blank cells behind it.
unfoldable pub filled : List (Bytes × SqlType) → List Cell → ℕ → ℕ → ResultSet
filled headers cells blanks count = record {
  columns = synth_columns headers;
  column_count = length headers;
  cells = cells ++ replicate blanks blank_cell;
  row_count = count;
}

put_entry-filled :
    (headers : List (Bytes × SqlType)) (cells : List Cell) (blanks count row col : ℕ) (e : Entry)
    → row * length headers + col ≡ length cells
    → put_entry (filled headers cells (suc blanks) count) row col e
      ≡ some (filled headers (cells ++ (entry_cell e ∷ [])) blanks count)
unfolding put_entry filled with_cells
put_entry-filled headers cells blanks count row col e h =
    rw (h, write-append cells (replicate blanks blank_cell) (entry_cell e) blank_cell, append_assoc)
      refl

put_row-filled :
    (entries : List Entry) (headers : List (Bytes × SqlType)) (cells : List Cell)
    (room blanks count row col : ℕ)
    → room ≡ length entries + blanks
    → row * length headers + col ≡ length cells
    → put_row entries (filled headers cells room count) row col
      ≡ some (filled headers (cells ++ map entry_cell entries) blanks count)
unfolding put_row then_put
put_row-filled [] headers cells room blanks count row col e h =
    ap (λ n. some (filled headers cells n count)) {x = room} {y = blanks} (omega arith)
    ∙ ap (λ xs. some (filled headers xs blanks count)) (sym (append-nil cells))
put_row-filled (x ∷ entries) headers cells room blanks count row col e h =
    ap (λ n. put_row (x ∷ entries) (filled headers cells n count) row col) {x = room}
      {y = suc (length entries + blanks)} (omega arith)
    ∙ ap (λ o. then_put o (λ put. put_row entries put row (col + 1)))
        (put_entry-filled headers cells (length entries + blanks) count row col x h)
    ∙ put_row-filled entries headers (cells ++ (entry_cell x ∷ [])) (length entries + blanks) blanks
        count row (col + 1) refl (omega (arith, h, length-append cells (entry_cell x ∷ [])))
    ∙ ap (λ xs. some (filled headers xs blanks count))
        (append_assoc cells (entry_cell x ∷ []) (map entry_cell entries))

unfoldable pub Wide : ℕ → Option (List Entry) → Type 0
Wide n none = Unit
Wide n (some entries) = length entries ≡ n

length-map : (entries : List Entry) → length (map entry_cell entries) ≡ length entries
length-map [] = refl
length-map (e ∷ entries) = ap suc (length-map entries)

module _ (headers : List (Bytes × SqlType)) (make : ℕ → ℕ → Option (List Entry))
    (wide : (r row : ℕ) → Wide (length headers) (make r row)) (blanks : ℕ) where
  -- What `left` rounds do to a set whose cells fill its rows.
  unfoldable pub Fills : ℕ → ℕ → Type 0
  Fills r left =
      (cells : List Cell) (count : ℕ)
      → length cells ≡ count * length headers
      → fill make r left
          (filled headers cells (length (row_cells (made_rows make r left count)) + blanks) count)
        ≡ some (
            filled headers (cells ++ row_cells (made_rows make r left count)) blanks
              (count + length (made_rows make r left count)))

  round-filled :
      (made : Option (List Entry)) (r left : ℕ)
      → Fills (r + 1) left
      → Wide (length headers) made
      → (cells : List Cell) (count : ℕ) → length cells ≡ count * length headers
      → let rows =
          keep_row made
            (made_rows make (r + 1) left count)
            (made_rows make (r + 1) left (count + 1)) in
        then_put
          (put_made made (filled headers cells (length (row_cells rows) + blanks) count))
          (λ put. fill make (r + 1) left put)
        ≡ some (filled headers (cells ++ row_cells rows) blanks (count + length rows))
  unfolding Wide put_made then_put keep_row Fills row_cells put_row made_rows entry_cell filled
  round-filled none r left ih w cells count h = ih cells count h
  round-filled (some entries) r left ih w cells count h =
      ap (λ o. then_put o (λ put. fill make (r + 1) left put)) written
      ∙ ih (cells ++ map entry_cell entries) (count + 1)
          (grind (arith, w, h, length-append cells (map entry_cell entries), length-map entries))
      ∙ ap (λ xs. some (filled headers xs blanks (count + 1 + length later)))
          (append_assoc cells (map entry_cell entries) (row_cells later))
      ∙ ap (λ n. some (filled headers (cells ++ row_cells (entries ∷ later)) blanks n))
          {y = count + suc (length later)} (omega arith)
    where
      later : List (List Entry)
      later = made_rows make (r + 1) left (count + 1)

      written :
          put_made
            (some entries)
            (filled headers cells (length (row_cells (entries ∷ later)) + blanks) count)
          ≡ some (
              filled headers
                (cells ++ map entry_cell entries)
                (length (row_cells later) + blanks)
                (count + 1))
      written =
          unfold put_made add_row row_cells in
          put_row-filled entries headers cells _ (length (row_cells later) + blanks) (count + 1) _ 0
            (omega
              (arith, length-append (map entry_cell entries) (row_cells later), length-map entries))
            (grind (arith, h))

  pub fill-filled : (left r : ℕ) → Fills r left
  unfolding Fills filled fill made_rows row_cells
  fill-filled zero r cells count h =
      ap (λ xs. some (filled headers xs (0 + blanks) count)) (sym (append-nil cells))
      ∙ ap (λ n. some (filled headers (cells ++ []) n count)) {x = 0 + blanks} {y = blanks}
          (omega arith)
      ∙ ap (λ n. some (filled headers (cells ++ []) blanks n)) {x = count} {y = count + 0}
          (omega arith)
  fill-filled (suc left) r cells count h =
      round-filled (make r count) r left (fill-filled left (r + 1)) (wide r count) cells count h

abbrev pub AllWide : ℕ → List (List Entry) → Type 0
AllWide n rows = All (λ row. length row ≡ n) rows

pub length-row_cells :
    (n : ℕ) (rows : List (List Entry)) → AllWide n rows → length (row_cells rows) ≡ n * length rows
unfolding row_cells
length-row_cells n [] w = omega arith
length-row_cells n (row ∷ rows) w = grind (
  arith,
  w.0,
  length-append (map entry_cell row) (row_cells rows),
  length-map row,
  length-row_cells n rows w.1,
)

keep_row-length :
    (made : Option (List Entry)) (skipped added : List (List Entry)) (n : ℕ)
    → length skipped ≤ n
    → length added ≤ n
    → length (keep_row made skipped added) ≤ suc n
unfolding keep_row
keep_row-length none skipped added n h k = omega arith
keep_row-length (some entries) skipped added n h k = omega arith

pub length-made_rows :
    (make : ℕ → ℕ → Option (List Entry)) (left r row : ℕ)
    → length (made_rows make r left row) ≤ left
unfolding made_rows
length-made_rows make zero r row = omega arith
length-made_rows make (suc left) r row =
    keep_row-length (make r row) _ _ left (length-made_rows make left (r + 1) row)
      (length-made_rows make left (r + 1) (row + 1))

keep_row-AllWide :
    (n : ℕ) (made : Option (List Entry)) (skipped added : List (List Entry))
    → Wide n made
    → AllWide n skipped
    → AllWide n added
    → AllWide n (keep_row made skipped added)
unfolding keep_row Wide
keep_row-AllWide n none skipped added w h k = h
keep_row-AllWide n (some entries) skipped added w h k = (w, k)

pub made_rows-AllWide :
    (n : ℕ) (make : ℕ → ℕ → Option (List Entry))
    → ((r row : ℕ) → Wide n (make r row))
    → (left r row : ℕ) → AllWide n (made_rows make r left row)
unfolding made_rows
made_rows-AllWide n make w zero r row = tt
made_rows-AllWide n make w (suc left) r row =
    keep_row-AllWide n (make r row) _ _ (w r row) (made_rows-AllWide n make w left (r + 1) row)
      (made_rows-AllWide n make w left (r + 1) (row + 1))
