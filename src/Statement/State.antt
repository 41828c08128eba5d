-- ===== src/Statement/State.antt =====
-- The record fl_stmt of src/fl_odbc.h with its diagnostic record, `alloc_stmt` and
-- `fl_stmt_clear_results` of src/handles.c, and `fl_stmt_current_set` of src/execute.c.
use frostlake_odbc.Base.{
  ℕ, zero, suc, Bool, false, Option, none, some, List, [], ◌∷◌, Bytes, get_elem?,
}
use frostlake_odbc.Base.Int.{ℤ, negsuc}
use frostlake_odbc.Response.Model.{ResultSet, Response}
use frostlake_odbc.Bind.Param.{Diag, Param, sql_other}
use frostlake_odbc.Results.Convert.Model.{
  CType, Buffer, Return, success, no_more, with_info, failed, diag_record,
}

-- A column that SQLBindCol has bound.
pub record BoundCol : Type 0 where
  pub c_type : CType
  pub buffer : Buffer

-- `next_row` is current_row + 1, which starts at -1; `getdata_col` is none for -1, and so is
-- `multi_statement_count`. The two flags say whether the application gave a pointer.
pub record Stmt : Type 0 where
  pub diag : Option Diag
  pub prepared_sql : Option Bytes
  pub response : Option Response
  pub current_set : ℕ
  pub synth : Option ResultSet
  pub next_row : ℕ
  pub row_count : ℤ
  pub getdata_col : Option ℕ
  pub getdata_offset : ℕ
  pub bound_cols : List (Option BoundCol)
  pub params : List Param
  pub multi_statement_count : Option ℕ
  pub max_rows : ℕ
  pub rows_fetched_ptr : Bool
  pub row_status_ptr : Bool

unfoldable pub alloc_stmt : Stmt
alloc_stmt = record {
  diag = none;
  prepared_sql = none;
  response = none;
  current_set = 0;
  synth = none;
  next_row = 0;
  row_count = negsuc 0;
  getdata_col = none;
  getdata_offset = 0;
  bound_cols = [];
  params = [];
  multi_statement_count = none;
  max_rows = 0;
  rows_fetched_ptr = false;
  row_status_ptr = false;
}

unfoldable pub clear_results : Stmt → Stmt
clear_results s = record s {
  response = none;
  synth = none;
  current_set = 0;
  next_row = 0;
  row_count = negsuc 0;
  getdata_col = none;
  getdata_offset = 0;
}

unfoldable pub set_of_response : Option Response → ℕ → Option ResultSet
set_of_response none i = none
set_of_response (some r) i = get_elem? r.sets i

unfoldable pub set_of : Option ResultSet → Option Response → ℕ → Option ResultSet
set_of (some set) response i = some set
set_of none response i = set_of_response response i

unfoldable pub stmt_current_set : Stmt → Option ResultSet
stmt_current_set s = set_of s.synth s.response s.current_set

-- Each call of the API starts by clearing the diagnostic record.
unfoldable pub diag_of : Return → Option Diag
diag_of success = none
diag_of no_more = none
diag_of (with_info d) = some d
diag_of (failed d) = some d

unfoldable pub set_diag : Return → Stmt → Stmt
set_diag code s = record s { diag = diag_of code }

unfoldable pub reply : Return → Stmt → Stmt × Return
reply code s = (set_diag code s, code)

-- `fl_diag_set` and `fl_diag_warn`, with the code that they answer.
unfoldable pub error : Bytes → Bytes → Return
error state text = failed (diag_record state text)

unfoldable pub warning : Bytes → Bytes → Return
warning state text = with_info (diag_record state text)

-- realloc and memset for a slot with number `n`, from 1 on; then the slot is written.
unfoldable pub put_slot {ℓ} : {A : Type ℓ} → A → List A → ℕ → A → List A
put_slot empty [] zero a = a ∷ []
put_slot empty (x ∷ xs) zero a = a ∷ xs
put_slot empty [] (suc i) a = empty ∷ put_slot empty [] i a
put_slot empty (x ∷ xs) (suc i) a = x ∷ put_slot empty xs i a

abbrev pub unbound : Param
unbound = record { bound = false; sql_type = sql_other; value = none; indicator = none }
