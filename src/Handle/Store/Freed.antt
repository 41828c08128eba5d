-- ===== src/Handle/Store/Freed.antt =====
-- A handle of src/handles.c that is allocated and then freed.
use frostlake_odbc.Base.{
  ℕ, ◌+◌, ◌≡◌, refl, ap, ◌∙◌, arith, Bool, true, false, Option, none, some, [], ◌∷◌, ◌++◌, length,
  get_elem?, get_elem?-append_right, if◌then◌else◌, codes,
}
use frostlake_odbc.Bind.Param.{Diag}
use frostlake_odbc.Results.Convert.Model.{diag_record}
use frostlake_odbc.Dbc.{Dbc, alloc_dbc}
use frostlake_odbc.Statement.State.{alloc_stmt}
use frostlake_odbc.Handle.Environment.{Env}
use frostlake_odbc.Handle.Store.{
  Object, env_object, dbc_object, stmt_object, freed, HandleType, handle_dbc, handle_stmt, Store,
  put_object, HandleCode, handle_done, invalid_handle, Allocated, add_object, alloc_below_env,
  alloc_on_dbc, alloc_below_dbc, alloc_handle, free_object, free_handle,
}

-- SQLFreeHandle on the handle that SQLAllocHandle has written.
unfoldable pub free_written : HandleType → Option Allocated → Option (Store × HandleCode)
free_written type none = none
free_written type (some (store, code, handle)) = free_handle type handle store

put_object-last :
    (store : Store) (o x : Object)
    → put_object (store ++ (o ∷ [])) (length store) x ≡ store ++ (x ∷ [])
unfolding put_object
put_object-last [] o x = refl
put_object-last (y ∷ store) o x = ap (◌∷◌ y) (put_object-last store o x)

last_found : (store : Store) (o : Object) → get_elem? (store ++ (o ∷ [])) (length store) ≡ some o
last_found store o =
    ap (get_elem? (store ++ (o ∷ []))) {y = length store + 0} (omega arith)
    ∙ get_elem?-append_right store (o ∷ []) 0

free_object-last :
    (type : HandleType) (store : Store) (o : Object)
    → free_object type (store ++ (o ∷ [])) (length store) (some o)
      ≡ some (put_object (store ++ (o ∷ [])) (length store) freed, handle_done)
    → free_written type (some (add_object store o)) ≡ some (store ++ (freed ∷ []), handle_done)
unfolding free_written free_handle add_object
free_object-last type store o e =
    ap (free_object type (store ++ (o ∷ [])) (length store)) (last_found store o)
    ∙ e
    ∙ ap (λ s. some (s, handle_done)) (put_object-last store o freed)

on_dbc :
    (store : Store) (p env : ℕ) (d : Dbc) (b : Bool)
    → free_written handle_stmt (some (alloc_on_dbc store p env d b)) ≡ (
        if b
        then some (put_object store p (dbc_object env d none) ++ (freed ∷ []), handle_done)
        else some (
          put_object store p
              (dbc_object env d (some (diag_record (codes "08003") (codes "Connection not open")))),
          invalid_handle,
        ))
unfolding alloc_on_dbc
on_dbc store p env d true =
    free_object-last handle_stmt (put_object store p (dbc_object env d none))
      (stmt_object p alloc_stmt) (unfold free_object in refl)
on_dbc store p env d false = unfold free_written free_handle in refl

-- What SQLAllocHandle writes for a connection that lives is freed by SQLFreeHandle as a statement,
-- and every object that was there before is as it was, but for the connection's diagnostic record,
-- which is cleared; when the connection is not open, no handle is written and the record says so.
-- The same holds of a connection's handle below an environment that lives, open or not.
pub free_handle-alloc_handle :
    (store : Store) (p q env : ℕ) (d : Dbc) (diag : Option Diag) (e : Env)
    → get_elem? store p ≡ some (dbc_object env d diag)
    → get_elem? store q ≡ some (env_object e)
    → (free_written handle_stmt (alloc_handle handle_stmt (some p) store) ≡ (
        if d.connected
        then some (put_object store p (dbc_object env d none) ++ (freed ∷ []), handle_done)
        else some (
          put_object store p
              (dbc_object env d (some (diag_record (codes "08003") (codes "Connection not open")))),
          invalid_handle,
        )))
      × (free_written handle_dbc (alloc_handle handle_dbc (some q) store)
          ≡ some (
            put_object store q (env_object (record e { env_diag = none })) ++ (freed ∷ []),
            handle_done,
          ))
unfolding alloc_handle
free_handle-alloc_handle store p q env d diag e h k = (
  ap (λ o. free_written handle_stmt (alloc_below_dbc store p o)) h
      ∙ unfold alloc_below_dbc in on_dbc store p env d d.connected,
  ap (λ o. free_written handle_dbc (alloc_below_env store q o)) k
      ∙ unfold alloc_below_env in
        free_object-last handle_dbc (put_object store q (env_object (record e { env_diag = none })))
          (dbc_object q alloc_dbc none) (unfold free_object in refl),
)
