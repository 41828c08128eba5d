-- ===== src/Catalog/Synth/Made.antt =====
-- The set that a loop of src/catalog.c makes in the array of `fl_synth_new`.
use frostlake_odbc.Base.{
  ℕ, suc, ◌+◌, ◌-◌, ◌*◌, ◌≤◌, ◌≡◌, refl, ap, ◌∙◌, arith, Option, some, List, [], ◌∷◌, length,
  length-append, replicate, if◌then◌else◌, ltb, Bytes,
}
use frostlake_odbc.Response.Model.{SqlType, ResultSet}
use frostlake_odbc.Response.Shape.{Covers}
use frostlake_odbc.Catalog.Synth.{Entry, synth_new, synth_columns, fill, blank_cell}
use frostlake_odbc.Catalog.Synth.Fill.{
  Wide, AllWide, filled, row_cells, made_rows, fill-filled, length-row_cells, length-made_rows,
  made_rows-AllWide, Fills,
}

length-synth_columns :
    (headers : List (Bytes × SqlType)) → length (synth_columns headers) ≡ length headers
unfolding synth_columns
length-synth_columns [] = refl
length-synth_columns (header ∷ headers) = ap suc (length-synth_columns headers)

room :
    (n capacity left : ℕ) (rows : List (List Entry))
    → AllWide n rows
    → length rows ≤ left
    → left ≤ capacity
    → length (row_cells rows) ≤ n * (if ltb 0 capacity then capacity else 1)
room n capacity left rows w l h = grind (
  arith,
  length-row_cells n rows w,
  mul-mono n (length rows) (if ltb 0 capacity then capacity else 1) (ground (arith)),
)
  where
    mul-mono : (a b c : ℕ) → b ≤ c → a * b ≤ a * c
    mul-mono a b c h = grind arith

module _ (headers : List (Bytes × SqlType)) (make : ℕ → ℕ → Option (List Entry))
    (capacity left : ℕ) where
  unfoldable pub rows_made : List (List Entry)
  rows_made = made_rows make 0 left 0

  unfoldable pub blanks_left : ℕ
  blanks_left =
      length headers * (if ltb 0 capacity then capacity else 1) - length (row_cells rows_made)

  -- The rows that are made, in order, and no others; the array had room for them.
  unfoldable pub made : ResultSet
  made = filled headers (row_cells rows_made) blanks_left (length rows_made)

  pub fill-synth_new :
      ((r row : ℕ) → Wide (length headers) (make r row))
      → left ≤ capacity
      → fill make 0 left (synth_new headers capacity) ≡ some made
  unfolding made Fills rows_made
  fill-synth_new wide l =
      ap (fill make 0 left) start
      ∙ fill-filled headers make wide blanks_left left 0 [] 0 (omega arith)
      ∙ ap (λ n. some (filled headers (row_cells rows_made) blanks_left n))
          {x = 0 + length rows_made} (omega arith)
    where
      start :
          synth_new headers capacity
          ≡ filled headers [] (length (row_cells rows_made) + blanks_left) 0
      start =
          unfold synth_new filled blanks_left rows_made in
          ap (λ n. filled headers [] n 0)
            (omega (
              arith,
              room (length headers) capacity left (made_rows make 0 left 0)
                  (made_rows-AllWide (length headers) make wide left 0 0)
                  (length-made_rows make left 0 0) l,
            ))

  pub made-Covers : ((r row : ℕ) → Wide (length headers) (make r row)) → Covers made
  unfolding made Covers filled rows_made
  made-Covers wide = (
    length-synth_columns headers,
    grind (
      arith,
      length-append (row_cells rows_made) (replicate blanks_left blank_cell),
      length-row_cells (length headers) rows_made
          (made_rows-AllWide (length headers) make wide left 0 0),
    ),
  )

pub synth_new-Covers :
    (headers : List (Bytes × SqlType)) (capacity : ℕ) → Covers (synth_new headers capacity)
unfolding synth_new Covers
synth_new-Covers headers capacity = (length-synth_columns headers, omega arith)
