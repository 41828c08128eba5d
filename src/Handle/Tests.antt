-- ===== src/Handle/Tests.antt =====
-- Handles that are allocated and freed.
use frostlake_odbc.Base.{◌≡◌, refl, true, none, some, [], ◌∷◌}
use frostlake_odbc.Dbc.{Dbc, alloc_dbc}
use frostlake_odbc.Handle.Environment.{Env, alloc_env}
use frostlake_odbc.Handle.Store.{
  env_object, dbc_object, freed, handle_dbc, handle_stmt, Store, put_object, handle_done,
  alloc_handle,
}
use frostlake_odbc.Handle.Store.Freed.{free_written, free_handle-alloc_handle}

abbrev open_dbc : Dbc
open_dbc = record alloc_dbc { connected = true }

abbrev bare_env : Env
bare_env = record alloc_env { env_diag = none }

abbrev opened : Store
opened = env_object alloc_env ∷ dbc_object 0 open_dbc none ∷ []

free_handle-alloc_handle_example :
    (free_written handle_stmt (alloc_handle handle_stmt (some 1) opened)
      ≡ some (env_object alloc_env ∷ dbc_object 0 open_dbc none ∷ freed ∷ [], handle_done))
    × (free_written handle_dbc (alloc_handle handle_dbc (some 0) opened)
        ≡ some (env_object bare_env ∷ dbc_object 0 open_dbc none ∷ freed ∷ [], handle_done))
unfolding put_object
free_handle-alloc_handle_example =
    free_handle-alloc_handle opened 1 0 0 open_dbc none alloc_env refl refl
