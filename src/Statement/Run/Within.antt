-- ===== src/Statement/Run/Within.antt =====
-- SQLGetData and SQLFetch of src/results.c after any sequence of calls: no access out of bounds.
use frostlake_odbc.Base.{◌≡◌, Bool, true, false, Option, none, some}
use frostlake_odbc.Dbc.{Dbc}
use frostlake_odbc.Proto.Server.{Server}
use frostlake_odbc.Results.Convert.Model.{CType, c_default, c_date, c_time, c_timestamp}
use frostlake_odbc.Statement.State.{BoundCol}

-- The targets whose conversion does not parse a date or a time. SQL_C_DEFAULT may stand for one
-- that does.
unfoldable pub is_timeless : CType → Bool
is_timeless c_default = false
is_timeless c_date = false
is_timeless c_time = false
is_timeless c_timestamp = false
is_timeless _ = true

-- A column that is not bound, or bound to such a target.
unfoldable pub TimelessBound : Option BoundCol → Type 0
TimelessBound none = Unit
TimelessBound (some bound) = is_timeless bound.c_type ≡ true
