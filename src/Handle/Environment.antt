-- ===== src/Handle/Environment.antt =====
-- The environment handle of src/handles.c.
use frostlake_odbc.Base.{Option, none, some, codes}
use frostlake_odbc.Base.Int.{ℤ, pos}
use frostlake_odbc.Bind.Param.{Diag}
use frostlake_odbc.Results.Convert.Model.{Return, success}
use frostlake_odbc.Statement.State.{error, diag_of}

-- `fl_env` of src/fl_odbc.h.
pub record Env : Type 0 where
  pub odbc_version : ℤ
  pub env_diag : Option Diag

-- SQL_OV_ODBC3
unfoldable pub alloc_env : Env
alloc_env = record { odbc_version = pos 3; env_diag = none }

pub data EnvAttr : Type 0 where
  set_version : ℤ → EnvAttr
  accepted unsupported_attr : EnvAttr

unfoldable pub env_reply : Return → Env → Env × Return
env_reply code e = (record e { env_diag = diag_of code }, code)

unfoldable pub set_env_attr : EnvAttr → Env → Env × Return
set_env_attr (set_version z) e = env_reply success (record e { odbc_version = z })
set_env_attr accepted e = env_reply success e
set_env_attr unsupported_attr e =
    env_reply (error (codes "HY092") (codes "Unsupported environment attribute")) e

pub data GetEnvAttr : Type 0 where
  get_version get_output_nts get_unsupported : GetEnvAttr

-- The value that is written, SQL_TRUE for a NUL at the end of texts.
unfoldable pub get_env_attr : GetEnvAttr → Env → Option ℤ × (Env × Return)
get_env_attr get_version e = (some e.odbc_version, env_reply success e)
get_env_attr get_output_nts e = (some (pos 1), env_reply success e)
get_env_attr get_unsupported e =
    (none, env_reply (error (codes "HY092") (codes "Unsupported environment attribute")) e)
