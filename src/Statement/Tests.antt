-- ===== src/Statement/Tests.antt =====
-- Calls on a concrete statement, and a server that answers one result set.
mod Runs
use frostlake_odbc.Base.{
  ℕ, suc, ◌≡◌, ◌≢◌, ◌-◌, ◌<◌, ◌+◌, refl, ap, ◌∙◌, true, false, some, none, [], ◌∷◌, codes, arith,
  c_string, equal, get_elem?, leb, length,
}
use frostlake_odbc.Base.Int.{pos, negsuc}
use frostlake_odbc.Json.Value.{
  Json, string, bool, array, object, nil, cons, end, field, get, at, find_field, child_count,
  get_bool, get_string, as_bool, as_string,
}
use frostlake_odbc.Json.Reader.{parse}
use frostlake_odbc.Json.Text.{escape, escape_byte}
use frostlake_odbc.Json.Printer.{print}
use frostlake_odbc.Json.Reader.Depth.{depth}
use frostlake_odbc.Json.Printer.RoundTrip.{parse-print}
use frostlake_odbc.Dbc.{Dbc, alloc_dbc, present}
use frostlake_odbc.Response.Model.{ResultSet, Column}
use frostlake_odbc.Response.Decode.{
  decode_set, decode_cell, decode_rows_from, decode_row, or_empty, decode_columns,
  decode_columns_from, decode_column, count_of, decode_sets, decode_sets_from,
}
use frostlake_odbc.Results.Convert.{convert_cell, cell_text}
use frostlake_odbc.Results.Convert.Model.{c_char, Buffer, failed, diag_record}
use frostlake_odbc.Proto.Request.{build_request}
use frostlake_odbc.Proto.Server.{Server, answered}
use frostlake_odbc.Proto.Lifecycle.{transaction, forget_session, is_nonempty, absorb_session}
use frostlake_odbc.Proto.Post.{
  World, gone, responded, post, send, take_answer, receive, is_gone, is_some, decode_response,
}
use frostlake_odbc.Statement.State.{
  Stmt, alloc_stmt, clear_results, set_diag, stmt_current_set, set_of, set_of_response,
}
use frostlake_odbc.Statement.Execute.{
  Handle, run_sql, exec_direct, lost_text, copy_sql, run_rendered, take_run, take_response, report,
  store_response,
}
use frostlake_odbc.Statement.Execute.Refusal.{run_sql-lost}
use frostlake_odbc.Statement.Cursor.{
  both_found, cell_at, is_positioned, column_index, seek, sought_offset, got, get_data, fetch_limit,
  deliver_bound,
}
use frostlake_odbc.Statement.Cursor.Scan.{
  fetch_all, upto, AllDeliver, Delivers, is_no_more, fetch_all-upto,
}
use frostlake_odbc.Statement.Run.{to_exec_direct, step, then_run, run}
use frostlake_odbc.Statement.Run.Sound.{IsSound}
use frostlake_odbc.Statement.Run.Reach.{fresh, run-IsSound}
use frostlake_odbc.Bind.Param.{text_of}
use frostlake_odbc.Bind.Substitute.{final_sql, has_bound_params}
use frostlake_odbc.Session.Note.{session_note}
use frostlake_odbc.Proto.Execute.{
  answer, Run, execute_as, execute_counted, send_statement, after_post, note_success,
}
use frostlake_odbc.Statement.Cursor.Pieces.{AtCell, get_all, get_all-whole}

-- {"columns":[{"name":"A"}],"rows":[["xy"],["z"]]}
abbrev set_json : Json
set_json = object (
    field (codes "columns")
      (array (cons (object (field (codes "name") (string (codes "A")) end)) nil))
      (field (codes "rows")
        (array (
          cons (array (cons (string (codes "xy")) nil))
            (cons (array (cons (string (codes "z")) nil)) nil)))
        end))

abbrev two_rows : ResultSet
two_rows = decode_set (some set_json)

-- The cursor on the first of two rows.
abbrev on_first : Stmt
on_first = record alloc_stmt {
  response = some (record { sets = two_rows ∷ []; session_id = none; error_message = none });
  next_row = 1;
}

abbrev before_first : Stmt
before_first = record on_first { next_row = 0 }

first_limit : fetch_limit two_rows 0 ≡ 2
unfolding decode_set fetch_limit count_of get find_field child_count equal
first_limit = refl

before-AllDeliver : AllDeliver two_rows before_first
unfolding AllDeliver Delivers deliver_bound alloc_stmt is_no_more
before-AllDeliver = λ row l. refl

fetch_all-upto_example :
    fetch_all (suc (fetch_limit two_rows before_first.max_rows)) before_first
    ≡ some (upto 0 (fetch_limit two_rows before_first.max_rows))
unfolding alloc_stmt stmt_current_set set_of set_of_response
fetch_all-upto_example = fetch_all-upto before_first two_rows refl refl before-AllDeliver

abbrev small : Buffer
small = record { present = true; size = pos 2; indicator = true }

at_first : is_positioned on_first two_rows ≡ true
unfolding alloc_stmt is_positioned decode_set count_of get find_field child_count equal
at_first = refl

one_column : column_index two_rows 1 ≡ some 0
unfolding column_index decode_set count_of get find_field child_count equal
one_column = refl

abbrev column_a : Column
column_a = decode_column (some (object (field (codes "name") (string (codes "A")) end)))

described : get_elem? two_rows.columns 0 ≡ some column_a
unfolding decode_set decode_columns decode_columns_from count_of get find_field child_count at equal
described = refl

found_first :
    cell_at two_rows 0 0 ≡ some (column_a, decode_cell column_a (some (string (codes "xy"))))
unfolding cell_at both_found decode_set decode_columns decode_columns_from decode_rows_from
    decode_row count_of get find_field child_count at equal
found_first = refl

first_cell : AtCell 1 (codes "xy") 0 on_first
unfolding alloc_stmt stmt_current_set set_of set_of_response seek sought_offset
first_cell = record {
  set = two_rows;
  index = 0;
  column = column_a;
  cell = decode_cell column_a (some (string (codes "xy")));
  current = refl;
  positioned = at_first;
  numbered = one_column;
  found = found_first;
  shown = unfold decode_cell in refl;
  holds = unfold decode_cell cell_text or_empty in refl;
  ready = refl;
}

get_all-whole_example : get_all (length (codes "xy") + 2) 1 small on_first [] ≡ some (codes "xy")
get_all-whole_example =
    get_all-whole 1 1 small (codes "xy") on_first refl refl (omega arith) first_cell
