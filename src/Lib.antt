-- ===== src/Lib.antt =====
-- The Frostlake ODBC driver (src/*.c): a library that an ODBC driver manager loads, which sends each
-- statement as JSON to POST /api/execute of a server and hands the decoded answer to the
-- application.
--
-- How the parts interact. SQLExecDirect puts literals in place of a statement's markers (Bind),
-- which uses the scanner, the literals and the identifiers of Sql. `fl_proto_execute_counted`
-- (Proto) builds the request with the JSON writer, posts it, reads the answer with the JSON reader
-- (Json), takes in what it says of the session, recovers a session that the engine has lost, and
-- lets Session note what a successful statement leaves behind on the session. Response decodes
-- columns and cells, Bind.Context follows USE statements. Statement keeps the answer on its handle,
-- moves the cursor over its rows, and hands each cell to Results, which converts its text. Connect
-- opens a connection on its scope and closes it; Http is the transport below Proto and Connect.
-- Catalog runs a query of its own through Proto and leaves a set that it puts together on the
-- statement, which Statement then reads like any other.
--
--   Json      src/json.c, src/json.h. Json.Buffer is fl_strbuf, Json.Text the strings and their
--             escapes, Json.Value the tree and its lookups, Json.Reader the recursive descent,
--             Json.Printer an independent description of compact JSON text.
--   Sql       src/execute.c (skip_non_placeholder, the literals) and src/util.c (identifiers).
--   Bind      src/execute.c: Bind.Param is append_param_literal, Bind.Substitute is
--             substitute_params, Bind.Context is track_context.
--   Dbc       the record fl_dbc of src/fl_odbc.h and its allocation in src/handles.c.
--   Session   src/session.c: Session.Words is leading_words, Session.Effect what one statement
--             does, Session.Note the bookkeeping.
--   Response  the result model of src/fl_odbc.h, the type mapping of src/util.c and the decoding
--             of src/proto.c.
--   Proto     src/proto.c: Proto.Request is build_request_json, Proto.Lifecycle the session's
--             state, Proto.Post one exchange, Proto.Scope is apply_scope, Proto.Execute is
--             fl_proto_execute_as, Proto.Release is fl_proto_release.
--   Results   convert_cell of src/results.c: Results.Chunk is the character read,
--             Results.Integer is parse_integer and the integer targets, Results.Temporal the
--             parsers of dates and times, Results.Convert the switch.
--   Statement src/execute.c, src/results.c and src/handles.c: Statement.State is the record fl_stmt,
--             Statement.Execute is run_sql with SQLExecDirect, SQLPrepare and SQLExecute,
--             Statement.Cursor is SQLBindCol, SQLFetch and SQLGetData, Statement.Describe and
--             Statement.Field describe columns, Statement.Attr is the attributes, Statement.Call
--             the other calls, Statement.Run any sequence of calls.
--   Http      src/http.c: Http.Header is find_header, Http.Chunked is decode_chunked, Http.Response
--             is http_request, with the sockets as a parameter that answers a Wire.
--   Connect   src/connect.c: Connect.Text is conn_str_get and parse_port, Connect.Open is
--             do_connect, SQLConnect, SQLDriverConnect and SQLDisconnect, Connect.Attr the
--             attributes and SQLEndTran, Connect.Run any sequence of these calls, Connect.Complete
--             the string that SQLDriverConnect writes out, Connect.Info is SQLGetInfo,
--             SQLGetFunctions and SQLNativeSql.
--   Catalog   src/catalog.c and the synthesised sets of src/util.c: Catalog.Synth is fl_synth_new to
--             fl_synth_null, Catalog.Query the helpers, Catalog.TypeList is type_list_contains,
--             Catalog.Tables, Catalog.Columns and Catalog.Types the calls.
--   Handle    src/handles.c: Handle.Diagnostics is SQLGetDiagRec and SQLGetDiagField,
--             Handle.Environment the environment, Handle.Store the allocation and the release of
--             handles, over a list of the objects that have been allocated.
--   Base      shared names, byte strings, Boolean tests, signed numbers.
--
-- Conventions. A C string is the list of its bytes in front of the NUL, and a pointer into it the
-- suffix that it points at; a value whose length is given may hold a NUL, and the scan of a literal
-- stops there, as does what is sent of the statement. A pointer that may be NULL is an option, a
-- flag a Boolean. The connection is passed from call to call, since each call works on one
-- connection and no two fields share storage. Allocation succeeds and sizes stay below the range of
-- size_t and int. The server is a parameter (Proto.Server): any type of state, and any answer to
-- each request, so every interleaving of expiry, restart and failure is some server. The bodies
-- that were posted are kept, the latest first.
--
-- Bounds and fuel. The reader's nesting limit is FL_JSON_MAX_DEPTH, 64, and its loops run on the
-- length of the text and one more, since each round takes at least one byte. The scanner's loops
-- and the substitution run on the length of the statement for the same reason. The note of a
-- request and the words of a statement run on the length as well. The growth of a buffer runs on
-- the size asked for, which doubling reaches. The digits of a number run on its value. The header
-- lookup, the chunks of a body and the pairs of a connection string run on the length of the text.
-- The loops in Results.Chunk and in Statement.Cursor stand for the application, and their fuel for
-- the number of its calls.
--
-- Not modelled: the sockets of src/http.c, the driver manager's odbc.ini and the values of the
-- macros of the ODBC headers, which are parameters; what lies behind a freed pointer, and a handle
-- that two threads use; calls with a NULL handle, but for the allocation and the release of
-- handles; the C library's text for a floating-point number, which a bound parameter carries, and
-- the number that it reads in a text; release of memory.
pub mod Base
pub mod Json
pub mod Sql
pub mod Dbc
pub mod Http
pub mod Session
pub mod Proto
pub mod Response
pub mod Bind
pub mod Results
pub mod Statement
pub mod Connect
pub mod Handle
pub mod Catalog
