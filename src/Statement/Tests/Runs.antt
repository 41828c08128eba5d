-- ===== src/Statement/Tests/Runs.antt =====
-- Executions against two concrete servers.
use frostlake_odbc.Base.{
  ℕ, ◌≡◌, ◌+◌, refl, ap, ◌∙◌, true, some, none, [], ◌∷◌, codes, arith, c_string, equal,
}
use frostlake_odbc.Base.Int.{pos, negsuc}
use frostlake_odbc.Json.Value.{
  Json, bool, array, object, nil, cons, end, field, get, at, find_field, child_count, get_bool,
  get_string, as_bool, as_string,
}
use frostlake_odbc.Json.Reader.{parse}
use frostlake_odbc.Json.Text.{escape, escape_byte}
use frostlake_odbc.Json.Printer.{print}
use frostlake_odbc.Json.Reader.Depth.{depth}
use frostlake_odbc.Json.Printer.RoundTrip.{parse-print}
use frostlake_odbc.Dbc.{Dbc, alloc_dbc, present}
use frostlake_odbc.Response.Decode.{count_of, decode_sets, decode_sets_from}
use frostlake_odbc.Results.Convert.Model.{failed, diag_record, Buffer}
use frostlake_odbc.Proto.Request.{build_request}
use frostlake_odbc.Proto.Server.{Server, answered}
use frostlake_odbc.Proto.Lifecycle.{transaction, forget_session, is_nonempty, absorb_session}
use frostlake_odbc.Proto.Post.{
  World, gone, responded, post, send, take_answer, receive, is_gone, is_some, decode_response,
}
use frostlake_odbc.Statement.State.{
  alloc_stmt, clear_results, set_diag, stmt_current_set, set_of, set_of_response,
}
use frostlake_odbc.Statement.Execute.{
  Handle, run_sql, exec_direct, lost_text, copy_sql, run_rendered, take_run, take_response, report,
  store_response,
}
use frostlake_odbc.Statement.Execute.Refusal.{run_sql-lost}
use frostlake_odbc.Statement.Run.{to_exec_direct, step, then_run, run}
use frostlake_odbc.Statement.Run.Sound.{IsSound}
use frostlake_odbc.Statement.Run.Reach.{fresh, run-IsSound}
use frostlake_odbc.Bind.Param.{text_of}
use frostlake_odbc.Bind.Substitute.{final_sql, has_bound_params}
use frostlake_odbc.Session.Note.{session_note}
use frostlake_odbc.Proto.Execute.{
  answer, Run, execute_as, execute_counted, send_statement, after_post, note_success,
}
use frostlake_odbc.Statement.Tests.{set_json, two_rows, on_first}

-- An engine that holds no session, and one that answers two rows.
abbrev forgets : Server
forgets = record {
  State = ℕ;
  post_execute = λ n body. (answered 404 (print (object end)), n + 1);
  delete_path = λ n path limit. n;
}

abbrev answer_json : Json
answer_json = object (
    field (codes "success") (bool true)
      (field (codes "resultSets") (array (cons set_json nil)) end))

abbrev answers : Server
answers = record {
  State = ℕ;
  post_execute = λ n body. (answered 200 (print answer_json), n + 1);
  delete_path = λ n path limit. n;
}

abbrev start : (server : Server) → server.State → World server
start server n = record { state = n; posted = [] }

answer-text : c_string (print answer_json) ≡ print answer_json
unfolding print escape escape_byte
answer-text = refl

answer-parse : parse (print answer_json) ≡ some answer_json
answer-parse =
    parse-print answer_json (tt, (((((tt, tt), tt), (((tt, tt), ((tt, tt), tt)), tt)), tt), tt))
      (unfold depth in omega arith)

empty-text : c_string (print (object end)) ≡ print (object end)
unfolding print
empty-text = refl

empty-parse : parse (print (object end)) ≡ some (object end)
empty-parse = parse-print (object end) tt (unfold depth in omega arith)

abbrev in_transaction : Dbc
in_transaction = record alloc_dbc {
  session_id = some (codes "s1");
  tracks_sessions = present;
  in_transaction = true;
}

abbrev held : Handle forgets
held = record { stmt = on_first; dbc = in_transaction; world = start forgets 0 }

refused : post forgets in_transaction (codes "SELECT 1") none (start forgets 0) ≡ (
  gone,
  in_transaction,
  record { state = 1; posted = build_request in_transaction (codes "SELECT 1") none ∷ [] },
)
unfolding post send take_answer receive is_gone is_some get_bool get_string get as_bool as_string
    find_field is_nonempty
refused = rw (empty-text, empty-parse) refl

run_sql-lost_example :
    ((run_sql forgets held (codes "SELECT 1")).1
      ≡ failed (diag_record (codes "08S01") (lost_text transaction)))
    × (stmt_current_set (run_sql forgets held (codes "SELECT 1")).0.stmt ≡ none)
    × ((run_sql forgets held (codes "SELECT 1")).0.stmt.row_count ≡ negsuc 0)
    × ((run_sql forgets held (codes "SELECT 1")).0.dbc ≡ forget_session in_transaction)
    × ((run_sql forgets held (codes "SELECT 1")).0.world.posted
        ≡ build_request in_transaction (codes "SELECT 1") none ∷ [])
unfolding alloc_dbc alloc_stmt
run_sql-lost_example = run_sql-lost forgets held (codes "SELECT 1") refl refl refused

answered_run : post answers alloc_dbc (codes "SELECT 1") none (start answers 0) ≡ (
  responded (record { sets = two_rows ∷ []; session_id = none; error_message = none }),
  alloc_dbc,
  record { state = 1; posted = build_request alloc_dbc (codes "SELECT 1") none ∷ [] },
)
unfolding post send take_answer receive is_gone is_some get_bool get_string get as_bool as_string
    find_field is_nonempty decode_response absorb_session decode_sets decode_sets_from count_of
    child_count at equal alloc_dbc
answered_run = rw (answer-text, answer-parse) refl

-- Run on a connection that was just allocated.
abbrev executed : Handle answers
executed =
    (exec_direct answers (fresh answers alloc_dbc (start answers 0)) none (codes "SELECT 1")).0

one_call :
    run answers
      (fresh answers alloc_dbc (start answers 0))
      (to_exec_direct none (codes "SELECT 1") ∷ [])
    ≡ some executed
unfolding run then_run step
one_call = refl

abbrev rows_run : Run answers
rows_run = (
  answer (record { sets = two_rows ∷ []; session_id = none; error_message = none }),
  session_note alloc_dbc (codes "SELECT 1"),
  record { state = 1; posted = build_request alloc_dbc (codes "SELECT 1") none ∷ [] },
)

sent_rows :
    send_statement answers true true (codes "SELECT 1") none alloc_dbc (start answers 0) ≡ rows_run
unfolding send_statement after_post note_success
sent_rows = rw answered_run refl

stored_rows :
    stmt_current_set
      (take_run answers (codes "SELECT 1") (clear_results alloc_stmt) rows_run).0.stmt
    ≡ some two_rows
unfolding take_run take_response report store_response set_diag stmt_current_set set_of
    set_of_response clear_results
stored_rows = refl

holds_rows : stmt_current_set executed.stmt ≡ some two_rows
unfolding exec_direct copy_sql text_of final_sql has_bound_params run_rendered run_sql fresh
    alloc_stmt clear_results execute_counted execute_as alloc_dbc
holds_rows =
    ap
      (λ r.
        stmt_current_set (take_run answers (codes "SELECT 1") (clear_results alloc_stmt) r).0.stmt)
      sent_rows
    ∙ stored_rows

run-IsSound_example : IsSound executed.stmt
run-IsSound_example =
    run-IsSound answers alloc_dbc (start answers 0) (to_exec_direct none (codes "SELECT 1") ∷ [])
      one_call

abbrev any_buffer : Buffer
any_buffer = record { present = true; size = pos 8; indicator = true }
