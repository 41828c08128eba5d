-- ===== src/Proto/Tests.antt =====
-- Executions against a concrete server.
use frostlake_odbc.Base.{ℕ, ◌≡◌, ◌≤◌, ◌+◌, refl, true, false, some, none, [], ◌∷◌, codes, arith}
use frostlake_odbc.Json.Value.{
  object, end, get, get_bool, get_string, as_bool, as_string, find_field,
}
use frostlake_odbc.Json.Reader.{parse}
use frostlake_odbc.Json.Reader.Depth.{depth}
use frostlake_odbc.Json.Printer.{print}
use frostlake_odbc.Json.Printer.RoundTrip.{parse-print}
use frostlake_odbc.Dbc.{Dbc, alloc_dbc, present}
use frostlake_odbc.Proto.Request.{build_request}
use frostlake_odbc.Proto.Server.{Server, answered}
use frostlake_odbc.Proto.Lifecycle.{forget_session, transaction, is_nonempty}
use frostlake_odbc.Proto.Post.{
  World, gone, lost, post, send, take_answer, receive, is_gone, is_some,
}
use frostlake_odbc.Proto.Execute.{failure, execute_as, execute_counted}
use frostlake_odbc.Proto.Execute.Frame.{login, login-execute_as, NoNewState, untracked-NoNewState}
use frostlake_odbc.Proto.Execute.Recovery.{execute_counted-lost}
use frostlake_odbc.Proto.Execute.Bounds.{sent_count, sent_count-execute_as}
use frostlake_odbc.Proto.Release.{path_segment}
use frostlake_odbc.Proto.Release.Path.{percent_decode, percent_decode-path_segment}

-- An engine that holds no session, and counts what it is asked.
abbrev forgetful : Server
forgetful = record {
  State = ℕ;
  post_execute = λ n body. (answered 404 (codes "{}"), n + 1);
  delete_path = λ n path limit. n;
}

abbrev start : World forgetful
start = record { state = 0; posted = [] }

abbrev in_transaction : Dbc
in_transaction = record alloc_dbc {
  session_id = some (codes "s1");
  tracks_sessions = present;
  in_transaction = true;
}

abbrev pending : Dbc
pending = record alloc_dbc { autocommit = false; scope_pending = true }

parse_empty : parse (codes "{}") ≡ some (object end)
parse_empty = unfold print in parse-print (object end) tt (unfold depth in omega arith)

refused : post forgetful in_transaction (codes "SELECT 1") none start ≡ (
  gone,
  in_transaction,
  record { state = 1; posted = build_request in_transaction (codes "SELECT 1") none ∷ [] },
)
unfolding post send take_answer receive is_gone is_some get_bool get_string get as_bool as_string
    find_field is_nonempty
refused = rw parse_empty refl

execute_counted-lost_example :
    (execute_counted forgetful (codes "SELECT 1") none in_transaction start ≡ (
      failure (lost transaction),
      forget_session in_transaction,
      record { state = 1; posted = build_request in_transaction (codes "SELECT 1") none ∷ [] },
    ))
    × (build_request in_transaction (codes "SELECT 1") none ∷ []
        ≡ build_request in_transaction (codes "SELECT 1") none ∷ [])
unfolding alloc_dbc
execute_counted-lost_example =
    execute_counted-lost forgetful (codes "SELECT 1") none in_transaction start refl refl refused

sent_count-execute_as_example :
    sent_count forgetful (execute_as forgetful true true (codes "SELECT 1") none pending start).2
    ≤ sent_count forgetful start + 14
sent_count-execute_as_example =
    sent_count-execute_as forgetful true true (codes "SELECT 1") none pending start

login-execute_as_example :
    login (execute_as forgetful true true (codes "SELECT 1") none in_transaction start).1
    ≡ login in_transaction
login-execute_as_example =
    login-execute_as forgetful true true (codes "SELECT 1") none in_transaction start

untracked-NoNewState_example :
    NoNewState in_transaction
      (execute_as forgetful false true (codes "SELECT 1") none in_transaction start).1
untracked-NoNewState_example =
    untracked-NoNewState forgetful true (codes "SELECT 1") none in_transaction start

percent_decode-path_segment_example : percent_decode (path_segment (codes "a/b")) ≡ codes "a/b"
percent_decode-path_segment_example =
    percent_decode-path_segment (codes "a/b") (omega arith, (omega arith, (omega arith, tt)))
