-- ===== src/Statement/Cursor/Pieces.antt =====
-- A text column that an application reads in pieces with SQLGetData of src/results.c.
use frostlake_odbc.Base.{
  ℕ, zero, suc, ◌+◌, ◌-◌, ◌≡◌, ◌<◌, refl, ap, ◌∙◌, arith, true, false, Option, none, some, [], ◌++◌,
  Bytes, length, if◌then◌else◌, ◌==◌, Bool-cases, inl, inr,
}
use frostlake_odbc.Base.Int.{pos}
use frostlake_odbc.Response.Model.{Column, Cell, ResultSet}
use frostlake_odbc.Results.Chunk.{Chunk, no_data, delivered, read_char, read_loop}
use frostlake_odbc.Results.Chunk.Whole.{read_loop-whole}
use frostlake_odbc.Results.Convert.{
  convert_cell, convert_text, resolve, spelled, is_boolean, is_text_target, cell_text,
}
use frostlake_odbc.Results.Convert.Model.{
  c_char, Return, Out, chars, Buffer, Conversion, of_chunk, usable, truncated,
}
use frostlake_odbc.Results.Convert.Pieces.{convert_char}
use frostlake_odbc.Statement.State.{Stmt, stmt_current_set, set_diag}
use frostlake_odbc.Statement.Cursor.{
  cell_at, is_positioned, column_index, seek, sought_offset, keep_offset, got, get_data,
}
use frostlake_odbc.Statement.Cursor.Scan.{is_no_more}
use frostlake_odbc.Statement.Cursor.Value.{get_data-found}

-- The characters that a call has stored.
unfoldable pub stored_chars : Option Out → Bytes
stored_chars (some (chars piece)) = piece
stored_chars _ = []

unfoldable pub take_piece :
    (Stmt → Bytes → Option Bytes) → Bytes → Option (Stmt × Conversion) → Option Bytes
take_piece next so_far none = none
take_piece next so_far (some (s, conversion)) =
    if is_no_more conversion.code
    then some so_far
    else next s (so_far ++ stored_chars conversion.out)

-- The application's loop over SQLGetData with SQL_C_CHAR, until SQL_NO_DATA.
unfoldable pub get_all : ℕ → ℕ → Buffer → Stmt → Bytes → Option Bytes
get_all zero number b s so_far = none
get_all (suc fuel) number b s so_far =
    take_piece (get_all fuel number b) so_far (get_data number c_char b s)

-- The cursor is on a row, and the column's cell there holds `text`; the next read of the column
-- starts at `offset`.
pub record AtCell (number : ℕ) (text : Bytes) (offset : ℕ) (s : Stmt) : Type 0 where
  pub set : ResultSet
  pub index : ℕ
  pub column : Column
  pub cell : Cell
  pub current : stmt_current_set s ≡ some set
  pub positioned : is_positioned s set ≡ true
  pub numbered : column_index set number ≡ some index
  pub found : cell_at set (s.next_row - 1) index ≡ some (column, cell)
  pub shown : cell.is_null ≡ false
  pub holds : cell_text cell ≡ text
  pub ready : (seek number s).getdata_offset ≡ offset

convert_cell-char :
    (column : Column) (cell : Cell) (b : Buffer) (offset : ℕ)
    → cell.is_null ≡ false
    → convert_cell column cell c_char b offset ≡ some (convert_char b (cell_text cell) offset)
unfolding convert_cell convert_text resolve spelled is_text_target
convert_cell-char column cell b offset e = elim (Bool-cases (is_boolean cell.kind)) [
  | inl k ↦ rw (e, k) refl
  | inr k ↦ rw (e, k) refl
]

read-AtCell :
    (number : ℕ) (text : Bytes) (offset : ℕ) (b : Buffer) (s : Stmt)
    → AtCell number text offset s
    → get_data number c_char b s ≡ got (seek number s) (some (convert_char b text offset))
read-AtCell number text offset b s a =
    get_data-found number c_char b s a.current a.positioned a.numbered a.found
    ∙ ap (got (seek number s)) (
        convert_cell-char a.column a.cell b _ a.shown
        ∙ ap (λ t. some (convert_char b t (seek number s).getdata_offset)) a.holds
        ∙ ap (λ n. some (convert_char b text n)) a.ready)

==-refl : (n : ℕ) → (n == n) ≡ true
==-refl n = ground arith

-- After a piece the next call starts behind it.
kept-AtCell :
    (number : ℕ) (text : Bytes) (offset next : ℕ) (code : Return) (s : Stmt)
    → AtCell number text offset s
    → AtCell number text next (set_diag code (keep_offset (some next) (seek number s)))
unfolding set_diag keep_offset seek stmt_current_set is_positioned sought_offset
kept-AtCell number text offset next code s a = record {
  set = a.set;
  index = a.index;
  column = a.column;
  cell = a.cell;
  current = a.current;
  positioned = a.positioned;
  numbered = a.numbered;
  found = a.found;
  shown = a.shown;
  holds = a.holds;
  ready = rw (==-refl number) refl;
}

char_chunk :
    (b : Buffer) (room : ℕ) (text : Bytes) (offset : ℕ)
    → usable b.present b.size ≡ some (suc room)
    → convert_char b text offset ≡ of_chunk b Out.chars (read_char text offset room)
unfolding convert_char
char_chunk b room text offset u =
    rw (u, convert_char) (ap (λ n. of_chunk b Out.chars (read_char text offset n)) (omega arith))

-- One round of the loop is one round of the loop over the text alone.
take_piece-chunk :
    (next : Stmt → Bytes → Option Bytes) (loop : ℕ → Bytes → Option Bytes) (s : Stmt) (b : Buffer)
    (so_far : Bytes) (chunk : Chunk)
    → ((code : Return) (offset : ℕ) (more : Bytes)
        → next (set_diag code (keep_offset (some offset) s)) more ≡ loop offset more)
    → take_piece next so_far (got s (some (of_chunk b Out.chars chunk)))
      ≡ (elim chunk as (λ _. Option Bytes) [
        | no_data ↦ some so_far
        | delivered bytes remaining offset cut ↦ loop offset (so_far ++ bytes)
      ])
unfolding take_piece got of_chunk is_no_more stored_chars keep_offset truncated
take_piece-chunk next loop s b so_far no_data h = refl
take_piece-chunk next loop s b so_far (delivered bytes remaining offset true) h = h _ offset _
take_piece-chunk next loop s b so_far (delivered bytes remaining offset false) h = h _ offset _

get_all-loop :
    (fuel number room : ℕ) (b : Buffer) (text : Bytes) (offset : ℕ) (s : Stmt) (so_far : Bytes)
    → usable b.present b.size ≡ some (suc room)
    → AtCell number text offset s
    → get_all fuel number b s so_far ≡ read_loop fuel text room offset so_far
unfolding get_all read_loop
get_all-loop zero number room b text offset s so_far u a = refl
get_all-loop (suc fuel) number room b text offset s so_far u a =
    ap (take_piece (get_all fuel number b) so_far) (
      read-AtCell number text offset b s a
      ∙ ap (λ c. got (seek number s) (some c)) (char_chunk b room text offset u))
    ∙ take_piece-chunk (get_all fuel number b) (read_loop fuel text room) (seek number s) b so_far
        (read_char text offset room)
        (λ code next more.
          get_all-loop fuel number room b text next _ more u
            (kept-AtCell number text offset next code s a))

-- With the cursor on a row and a cell there that is no NULL, the loop over SQLGetData with
-- SQL_C_CHAR and a buffer for one byte and its NUL at least, from the first read of the column on,
-- ends in SQL_NO_DATA, and the pieces that it has stored make the cell's text: one call for each
-- byte and two more are always enough.
pub get_all-whole :
    (number room : ℕ) (b : Buffer) (text : Bytes) (s : Stmt)
    → b.present ≡ true
    → b.size ≡ pos (suc room)
    → 0 < room
    → AtCell number text 0 s
    → get_all (length text + 2) number b s [] ≡ some text
get_all-whole number room b text s p z l a =
    get_all-loop (length text + 2) number room b text 0 s [] (unfold usable in rw (p, z) refl) a
    ∙ read_loop-whole text room l
