-- ===== src/Results/Convert/Model.antt =====
-- What `convert_cell` of src/results.c delivers, and into what.
use frostlake_odbc.Base.{
  ℕ, zero, suc, ◌-◌, Bool, true, false, Option, none, some, ltb, if◌then◌else◌, Bytes, codes, take,
}
use frostlake_odbc.Base.Int.{ℤ, pos, negsuc}
use frostlake_odbc.Response.Model.{
  SqlType, bigint, integer, smallint, tinyint, double, bit, type_date, type_time, type_timestamp,
  varbinary,
}
use frostlake_odbc.Bind.Param.{Diag}
use frostlake_odbc.Results.Chunk.{Chunk, no_data, delivered}
use frostlake_odbc.Results.Integer.{Target}
use frostlake_odbc.Results.Temporal.{Date, Time, Timestamp}

-- The C types that the switch tells apart.
pub data CType : Type 0 where
  c_default c_char c_binary c_float c_double c_bit c_date c_time c_timestamp : CType
  c_integer : Target → CType
  c_other : ℤ → CType

unfoldable pub default_c_type : SqlType → CType
default_c_type bigint = c_integer Target.sbigint
default_c_type integer = c_integer Target.slong
default_c_type smallint = c_integer Target.sshort
default_c_type tinyint = c_integer Target.stinyint
default_c_type double = c_double
default_c_type bit = c_bit
default_c_type type_date = c_date
default_c_type type_time = c_time
default_c_type type_timestamp = c_timestamp
default_c_type varbinary = c_binary
default_c_type _ = c_char

-- An ODBC return code, with the diagnostic that the call leaves.
pub data Return : Type 0 where
  success no_more : Return
  with_info failed : Diag → Return

-- What is stored at the buffer. A text is stored with its NUL; a floating-point number is the one
-- that `strtod` reads in the text.
pub data Out : Type 0 where
  chars bytes real : Bytes → Out
  number : ℤ → Out
  flag : ℕ → Out
  date : Date → Out
  time : Time → Out
  timestamp : Timestamp → Out

-- An application's buffer: whether it is there, its length, and whether an indicator is there.
pub record Buffer : Type 0 where
  pub present : Bool
  pub size : ℤ
  pub indicator : Bool

-- The return code, what is stored, what is written to the indicator, and the new offset, if the
-- call moves it.
pub record Conversion : Type 0 where
  pub code : Return
  pub out : Option Out
  pub written : Option ℤ
  pub offset : Option ℕ

-- `none` stands for a read behind the end of the cell's text.
abbrev pub Converted : Type 0
Converted = Option Conversion

-- `fl_diag_set`: the two fields are of fixed size, FL_MAX_DIAG_MSG for the message.
abbrev pub diag_record : Bytes → Bytes → Diag
diag_record state text = record { sqlstate = take 5 state; message = take 2047 text }

unfoldable pub fail : Bytes → Bytes → Conversion
fail state text = record {
  code = failed (diag_record state text);
  out = none;
  written = none;
  offset = none;
}

unfoldable pub when {ℓ} : {A : Type ℓ} → Bool → A → Option A
when b a = if b then some a else none

-- A value of fixed size.
unfoldable pub deliver : Buffer → Out → ℕ → Conversion
deliver b x size = record {
  code = success;
  out = when b.present x;
  written = when b.indicator (pos size);
  offset = none;
}

-- The size of a buffer that can take data: it is there, and longer than zero.
unfoldable pub usable : Bool → ℤ → Option ℕ
usable false n = none
usable true (pos zero) = none
usable true (pos (suc n)) = some (suc n)
usable true (negsuc n) = none

unfoldable pub truncated : Bool → Return
truncated true = with_info (diag_record (codes "01004") (codes "String data, right truncated"))
truncated false = success

-- A call that a chunk answers, for a buffer that can take data.
unfoldable pub of_chunk : Buffer → (Bytes → Out) → Chunk → Conversion
of_chunk b store no_data = record { code = no_more; out = none; written = none; offset = none }
of_chunk b store (delivered data_out remaining next cut) = record {
  code = truncated cut;
  out = some (store data_out);
  written = when b.indicator (pos remaining);
  offset = some next;
}

-- With no buffer to fill, the call only says how much there is.
unfoldable pub measure : Buffer → ℕ → ℕ → Conversion
measure b total from =
    if ltb total from
    then record { code = no_more; out = none; written = none; offset = none }
    else record {
      code = success;
      out = none;
      written = when b.indicator (pos (total - from));
      offset = none;
    }
