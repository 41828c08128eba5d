-- ===== src/Statement/Run/Replies.antt =====
-- The other calls' part in the invariant of a statement.
use frostlake_odbc.Base.{
  ℕ, zero, suc, ◌+◌, ◌≡◌, refl, Bool, true, false, Option, none, some, Bytes, leb, length,
  Bool-cases, inl, inr,
}
use frostlake_odbc.Base.Int.{ℤ, pos, negsuc}
use frostlake_odbc.Response.Model.{Column, ResultSet, Response}
use frostlake_odbc.Results.Convert.Model.{CType, Buffer, Return, success}
use frostlake_odbc.Statement.State.{
  Stmt, clear_results, set_of, set_of_response, stmt_current_set, set_diag, reply,
}
use frostlake_odbc.Statement.Execute.{prepare}
use frostlake_odbc.Statement.Cursor.{bind_col, get_data}
use frostlake_odbc.Statement.Describe.{describe_found, describe_col, column_at}
use frostlake_odbc.Statement.Field.{
  Field, is_count, attribute_found, attribute_at, attribute_from, col_attribute,
}
use frostlake_odbc.Statement.Attr.{SetAttr, set_stmt_attr, only, set_multi_statement_count}
use frostlake_odbc.Statement.Call.{
  FreeOption, close, unbind, reset_params, other, bind_parameter, next_set, more_of_response,
  more_from, more_results, close_cursor, cancel, free_stmt,
}
use frostlake_odbc.Statement.Run.{
  Call, to_exec_direct, to_prepare, to_execute, look, to_fetch, to_more_results, to_close_cursor,
  to_cancel, to_bind_parameter, to_bind_col, to_get_data, to_fetch_scroll, to_describe_col,
  to_col_attribute, to_free_stmt, to_set_stmt_attr, to_catalog, local,
}
use frostlake_odbc.Statement.Run.Sound.{
  sets_of, Covered, InSet, IsSound, cleared-IsSound, start-InSet,
}
use frostlake_odbc.Statement.Run.Keeps.{
  SoundAfter, fetch-SoundAfter, fetch_scroll-SoundAfter, get_data_from-SoundAfter,
}
use frostlake_odbc.Bind.Param.{Param}

-- The next set of a response starts in front of its first row.
next_set-IsSound : (s : Stmt) → s.synth ≡ none → IsSound s → IsSound (next_set s)
unfolding IsSound next_set stmt_current_set set_of
next_set-IsSound s e h = (h.0, h.1, rw e (start-InSet s.response (s.current_set + 1) h.1))

more_of_response-IsSound :
    (r : Option Response) (s : Stmt) → s.synth ≡ none → IsSound s → IsSound (more_of_response r s).0
unfolding more_of_response reply set_diag
more_of_response-IsSound none s e h = unfold IsSound stmt_current_set in h
more_of_response-IsSound (some r) s e h =
    elim (Bool-cases (leb (length r.sets) (s.current_set + 1))) [
      | inl l ↦ rw l (unfold IsSound stmt_current_set in h)
      | inr l ↦ rw l (unfold IsSound stmt_current_set in next_set-IsSound s e h)
    ]

more_from-IsSound :
    (o : Option ResultSet) (s : Stmt) → s.synth ≡ o → IsSound s → IsSound (more_from o s).0
unfolding more_from reply set_diag
more_from-IsSound none s e h = more_of_response-IsSound s.response s e h
more_from-IsSound (some set) s e h = unfold IsSound stmt_current_set in h

free_stmt-IsSound : (option : FreeOption) (s : Stmt) → IsSound s → IsSound (free_stmt option s).0
unfolding free_stmt reply set_diag
free_stmt-IsSound close s h = unfold IsSound stmt_current_set in cleared-IsSound s
free_stmt-IsSound unbind s h = unfold IsSound stmt_current_set in h
free_stmt-IsSound reset_params s h = unfold IsSound stmt_current_set in h
free_stmt-IsSound other s h = unfold IsSound stmt_current_set in h

-- A code by itself.
replied-IsSound : (code : Return) (s : Stmt) → IsSound s → IsSound (reply code s).0
unfolding reply set_diag IsSound stmt_current_set
replied-IsSound code s h = h

described-IsSound :
    (present : Bool) (size : ℤ) (s : Stmt) (o : Option Column)
    → IsSound s
    → IsSound (describe_found present size s o).0
unfolding describe_found set_diag IsSound stmt_current_set
described-IsSound present size s none h = h
described-IsSound present size s (some c) h = h

attribute_found-IsSound :
    (field : Field) (present : Bool) (n : ℤ) (s : Stmt) (set : ResultSet) (o : Option Column)
    → IsSound s
    → IsSound (attribute_found field present n s set o).0
unfolding attribute_found set_diag IsSound stmt_current_set
attribute_found-IsSound field present n s set none h = h
attribute_found-IsSound field present n s set (some c) h = h

attribute_at-IsSound :
    (field : Field) (number : ℕ) (present : Bool) (n : ℤ) (s : Stmt) (o : Option ResultSet)
    → IsSound s
    → IsSound (attribute_at field number present n s o).0
unfolding attribute_at set_diag
attribute_at-IsSound field number present n s none h = unfold IsSound stmt_current_set in h
attribute_at-IsSound field number present n s (some set) h =
    attribute_found-IsSound field present n s set (column_at (some set) number) h

attribute_from-IsSound :
    (field : Field) (number : ℕ) (present : Bool) (n : ℤ) (s : Stmt) (o : Option ResultSet)
    → IsSound s
    → IsSound (attribute_from field number present n s o).0
unfolding attribute_from set_diag
attribute_from-IsSound field number present n s o h = elim (Bool-cases (is_count field)) [
  | inl e ↦ rw e (unfold IsSound stmt_current_set in h)
  | inr e ↦ rw e (attribute_at-IsSound field number present n s o h)
]

bind_col-IsSound :
    (n : ℕ) (c : CType) (b : Buffer) (s : Stmt) → IsSound s → IsSound (bind_col n c b s).0
unfolding bind_col reply set_diag IsSound stmt_current_set
bind_col-IsSound zero c b s h = h
bind_col-IsSound (suc i) c b s h = h

bind_parameter-IsSound :
    (input : Bool) (n : ℕ) (p : Param) (s : Stmt)
    → IsSound s
    → IsSound (bind_parameter input n p s).0
unfolding bind_parameter reply set_diag IsSound stmt_current_set
bind_parameter-IsSound false n p s h = h
bind_parameter-IsSound true zero p s h = h
bind_parameter-IsSound true (suc i) p s h = h

count-IsSound : (z : ℤ) (s : Stmt) → IsSound s → IsSound (set_multi_statement_count z s).0
unfolding set_multi_statement_count reply set_diag IsSound stmt_current_set
count-IsSound (pos n) s h = h
count-IsSound (negsuc zero) s h = h
count-IsSound (negsuc (suc n)) s h = h

set_stmt_attr-IsSound : (attr : SetAttr) (s : Stmt) → IsSound s → IsSound (set_stmt_attr attr s).0
unfolding set_stmt_attr only reply set_diag IsSound stmt_current_set
set_stmt_attr-IsSound (SetAttr.max_rows n) s h = h
set_stmt_attr-IsSound (SetAttr.multi_statement_count z) s h =
    unfold IsSound stmt_current_set in count-IsSound z s h
set_stmt_attr-IsSound (SetAttr.rows_fetched_ptr b) s h = h
set_stmt_attr-IsSound (SetAttr.row_status_ptr b) s h = h
set_stmt_attr-IsSound (SetAttr.row_array_size n) s h = h
set_stmt_attr-IsSound (SetAttr.cursor_type n) s h = h
set_stmt_attr-IsSound (SetAttr.cursor_scrollable n) s h = h
set_stmt_attr-IsSound (SetAttr.concurrency n) s h = h
set_stmt_attr-IsSound (SetAttr.query_timeout n) s h = h
set_stmt_attr-IsSound (SetAttr.row_bind_type n) s h = h
set_stmt_attr-IsSound (SetAttr.retrieve_data n) s h = h
set_stmt_attr-IsSound SetAttr.no_op s h = h
set_stmt_attr-IsSound (SetAttr.other id) s h = h

prepared-IsSound :
    (n : Option ℕ) (text : Bytes) (s : Stmt) → IsSound (set_diag success (prepare n text s))
unfolding prepare set_diag IsSound Covered clear_results sets_of InSet stmt_current_set set_of
    set_of_response
prepared-IsSound n text s = (tt, tt, tt)

pub local-SoundAfter : (call : Call) (s : Stmt) → IsSound s → SoundAfter (local call s)
unfolding local set_diag reply
local-SoundAfter (to_exec_direct n text) s h = unfold SoundAfter in h
local-SoundAfter (to_prepare n text) s h = unfold SoundAfter in prepared-IsSound n text s
local-SoundAfter to_execute s h = unfold SoundAfter in h
local-SoundAfter look s h = unfold SoundAfter in replied-IsSound success s h
local-SoundAfter to_fetch s h = fetch-SoundAfter s h
local-SoundAfter to_more_results s h =
    unfold SoundAfter more_results in more_from-IsSound s.synth s refl h
local-SoundAfter to_close_cursor s h =
    unfold SoundAfter close_cursor in replied-IsSound success (clear_results s) (cleared-IsSound s)
local-SoundAfter to_cancel s h = unfold SoundAfter cancel in replied-IsSound success s h
local-SoundAfter (to_bind_parameter input n p) s h =
    unfold SoundAfter in bind_parameter-IsSound input n p s h
local-SoundAfter (to_bind_col n c b) s h = unfold SoundAfter in bind_col-IsSound n c b s h
local-SoundAfter (to_get_data n c b) s h =
    unfold get_data in get_data_from-SoundAfter n c b s (stmt_current_set s) h
local-SoundAfter (to_fetch_scroll next) s h = fetch_scroll-SoundAfter next s h
local-SoundAfter (to_describe_col n present size) s h =
    unfold SoundAfter describe_col in
    described-IsSound present size s (column_at (stmt_current_set s) n) h
local-SoundAfter (to_col_attribute n field present size) s h =
    unfold SoundAfter col_attribute in
    attribute_from-IsSound field n present size s (stmt_current_set s) h
local-SoundAfter (to_free_stmt option) s h = unfold SoundAfter in free_stmt-IsSound option s h
local-SoundAfter (to_set_stmt_attr attr) s h = unfold SoundAfter in set_stmt_attr-IsSound attr s h
local-SoundAfter (to_catalog call) s h = unfold SoundAfter in h
