-- ===== src/Handle/Diagnostics.antt =====
-- SQLGetDiagRec, SQLGetDiagField and SQLError of src/handles.c, for a handle's record.
use frostlake_odbc.Base.{ℕ, Bool, Option, none, some, ◌==◌, if◌then◌else◌}
use frostlake_odbc.Base.Int.{ℤ}
use frostlake_odbc.Bind.Param.{Diag}
use frostlake_odbc.Statement.Describe.{Copied, copy_string}

-- What SQLGetDiagRec writes; the native error is 0 in every record. `none` is SQL_NO_DATA.
pub record DiagAnswer : Type 0 where
  pub state : Diag
  pub native_error : ℕ
  pub message_text : Copied

-- There is one record, with number 1.
unfoldable pub record_at : ℕ → Option Diag → Option Diag
record_at number diag = if number == 1 then diag else none

unfoldable pub diag_answer : Bool → ℤ → Option Diag → Option DiagAnswer
diag_answer present size none = none
diag_answer present size (some d) =
    some (record { state = d; native_error = 0; message_text = copy_string d.message present size })

unfoldable pub get_diag_rec : ℕ → Bool → ℤ → Option Diag → Option DiagAnswer
get_diag_rec number present size diag = diag_answer present size (record_at number diag)

pub data DiagField : Type 0 where
  diag_number diag_sqlstate diag_message_text diag_native diag_other : DiagField

pub data FieldAnswer : Type 0 where
  field_number : ℕ → FieldAnswer
  field_text : Copied → FieldAnswer
  field_no_data : FieldAnswer

unfoldable pub count_records : Option Diag → ℕ
count_records none = 0
count_records (some d) = 1

unfoldable pub field_of_record : DiagField → Bool → ℤ → Option Diag → FieldAnswer
field_of_record field present size none = field_no_data
field_of_record diag_number present size (some d) = field_no_data
field_of_record diag_sqlstate present size (some d) =
    field_text (copy_string d.sqlstate present size)
field_of_record diag_message_text present size (some d) =
    field_text (copy_string d.message present size)
field_of_record diag_native present size (some d) = field_number 0
field_of_record diag_other present size (some d) = field_no_data

-- The number of the records is answered whatever the record's number.
unfoldable pub get_diag_field : DiagField → ℕ → Bool → ℤ → Option Diag → FieldAnswer
get_diag_field diag_number number present size diag = field_number (count_records diag)
get_diag_field field number present size diag =
    field_of_record field present size (record_at number diag)

-- SQLError takes the record, once it has answered it.
unfoldable pub sql_error : Bool → ℤ → Option Diag → Option DiagAnswer × Option Diag
sql_error present size diag = (get_diag_rec 1 present size diag, none)
