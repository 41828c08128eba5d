-- ===== src/Handle/Store.antt =====
-- SQLAllocHandle and SQLFreeHandle of src/handles.c, with their forerunners of ODBC 2, over what
-- has been allocated. A pointer is the place of its object, which is not used again.
pub mod Freed
use frostlake_odbc.Base.{
  ℕ, zero, suc, Bool, true, false, Option, none, some, List, [], ◌∷◌, ◌++◌, codes, length,
  get_elem?,
}
use frostlake_odbc.Bind.Param.{Diag}
use frostlake_odbc.Results.Convert.Model.{diag_record}
use frostlake_odbc.Dbc.{Dbc, alloc_dbc}
use frostlake_odbc.Statement.State.{Stmt, alloc_stmt}
use frostlake_odbc.Statement.Describe.{Copied}
use frostlake_odbc.Handle.Environment.{Env, alloc_env}
use frostlake_odbc.Handle.Diagnostics.{DiagAnswer, sql_error}

-- A connection with its environment and its diagnostic record, and a statement with its connection.
pub data Object : Type 0 where
  env_object : Env → Object
  dbc_object : ℕ → Dbc → Option Diag → Object
  stmt_object : ℕ → Stmt → Object
  freed : Object

-- SQL_HANDLE_ENV, SQL_HANDLE_DBC and SQL_HANDLE_STMT.
pub data HandleType : Type 0 where
  handle_env handle_dbc handle_stmt handle_other : HandleType

abbrev pub Store : Type 0
Store = List Object

unfoldable pub type_of : Object → HandleType
type_of (env_object e) = handle_env
type_of (dbc_object env d diag) = handle_dbc
type_of (stmt_object dbc s) = handle_stmt
type_of freed = handle_other

unfoldable pub put_object : Store → ℕ → Object → Store
put_object [] i o = []
put_object (x ∷ store) zero o = o ∷ store
put_object (x ∷ store) (suc i) o = x ∷ put_object store i o

-- SQL_SUCCESS, SQL_ERROR and SQL_INVALID_HANDLE.
pub data HandleCode : Type 0 where
  handle_done handle_error invalid_handle : HandleCode

-- The code, and the handle that is written, none for SQL_NULL_HANDLE.
abbrev pub Allocated : Type 0
Allocated = Store × HandleCode × Option ℕ

unfoldable pub add_object : Store → Object → Allocated
add_object store o = (store ++ (o ∷ []), handle_done, some (length store))

-- `fl_diag_clear` and `alloc_dbc`. None is a pointer that is no live environment.
unfoldable pub alloc_below_env : Store → ℕ → Option Object → Option Allocated
alloc_below_env store p (some (env_object e)) = some (
    add_object (put_object store p (env_object (record e { env_diag = none })))
      (dbc_object p alloc_dbc none))
alloc_below_env store p _ = none

unfoldable pub alloc_on_dbc : Store → ℕ → ℕ → Dbc → Bool → Allocated
alloc_on_dbc store p env d true =
    add_object (put_object store p (dbc_object env d none)) (stmt_object p alloc_stmt)
alloc_on_dbc store p env d false = (
  put_object store p
      (dbc_object env d (some (diag_record (codes "08003") (codes "Connection not open")))),
  handle_error,
  none,
)

-- `fl_diag_clear` and `alloc_stmt`. None is a pointer that is no live connection.
unfoldable pub alloc_below_dbc : Store → ℕ → Option Object → Option Allocated
alloc_below_dbc store p (some (dbc_object env d diag)) =
    some (alloc_on_dbc store p env d d.connected)
alloc_below_dbc store p _ = none

-- OutputHandlePtr is given, and InputHandle is none for NULL.
unfoldable pub alloc_handle : HandleType → Option ℕ → Store → Option Allocated
alloc_handle handle_env input store = some (add_object store (env_object alloc_env))
alloc_handle handle_dbc none store = some (store, invalid_handle, none)
alloc_handle handle_dbc (some p) store = alloc_below_env store p (get_elem? store p)
alloc_handle handle_stmt none store = some (store, invalid_handle, none)
alloc_handle handle_stmt (some p) store = alloc_below_dbc store p (get_elem? store p)
alloc_handle handle_other input store = some (store, handle_error, none)

-- None is a pointer that is no live object of the type.
unfoldable pub free_object : HandleType → Store → ℕ → Option Object → Option (Store × HandleCode)
free_object handle_env store p (some (env_object e)) = some (put_object store p freed, handle_done)
free_object handle_dbc store p (some (dbc_object env d diag)) =
    some (put_object store p freed, handle_done)
free_object handle_stmt store p (some (stmt_object dbc s)) =
    some (put_object store p freed, handle_done)
free_object handle_other store p o = some (store, handle_error)
free_object _ store p _ = none

unfoldable pub free_handle : HandleType → Option ℕ → Store → Option (Store × HandleCode)
free_handle type none store = some (store, invalid_handle)
free_handle type (some p) store = free_object type store p (get_elem? store p)

-- The calls of ODBC 2.
unfoldable pub alloc_env_2 : Store → Option Allocated
alloc_env_2 store = alloc_handle handle_env none store

unfoldable pub alloc_connect_2 : Option ℕ → Store → Option Allocated
alloc_connect_2 env store = alloc_handle handle_dbc env store

unfoldable pub alloc_stmt_2 : Option ℕ → Store → Option Allocated
alloc_stmt_2 dbc store = alloc_handle handle_stmt dbc store

unfoldable pub free_env_2 : Option ℕ → Store → Option (Store × HandleCode)
free_env_2 env store = free_handle handle_env env store

unfoldable pub free_connect_2 : Option ℕ → Store → Option (Store × HandleCode)
free_connect_2 dbc store = free_handle handle_dbc dbc store

-- The handle that SQLError looks at: the statement, or else the connection, or else the environment.
unfoldable pub error_handle : Option ℕ → Option ℕ → Option ℕ → Option ℕ
error_handle env dbc (some stmt) = some stmt
error_handle env (some dbc) none = some dbc
error_handle env none none = env
