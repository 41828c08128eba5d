-- ===== src/Connect/Tests/Offers.antt =====
-- What a connection says of itself, on concrete arguments.
use frostlake_odbc.Base.{
  ℕ, ◌≡◌, ◌/◌, ◌%◌, ◌<◌, refl, Option, none, some, Bytes, codes, arith, length, Bool,
}
use frostlake_odbc.Dbc.{alloc_dbc}
use frostlake_odbc.Proto.Request.{decimal, decimal_loop}
use frostlake_odbc.Connect.Text.Lookup.{IsValue}
use frostlake_odbc.Connect.Open.{driver_connect, do_connect}
use frostlake_odbc.Connect.Info.{
  Header, supported, bitmap, numbers, one, is_supported, get_functions,
}
use frostlake_odbc.Connect.Info.Functions.{all_functions_2, all_functions_3, get_functions-agree}
use frostlake_odbc.Connect.Complete.{part, completed_text, completed}
use frostlake_odbc.Connect.Complete.Finds.{NoNul, IsGiven}
use frostlake_odbc.Connect.Complete.Again.{driver_connect-completed}
use frostlake_odbc.Connect.Tests.{mute, healthy, no_ini, rested}

abbrev sales : Option Bytes
sales = some (codes "SALES")

driver_connect-completed_example :
    driver_connect mute healthy no_ini none
      (completed (codes "db") 18082 sales none)
      alloc_dbc
      rested
    ≡ do_connect mute healthy sales none
        (record alloc_dbc { host = some (codes "db"); port = 18082 })
        rested
driver_connect-completed_example =
    driver_connect-completed mute healthy no_ini (codes "db") 18082 sales none alloc_dbc rested
      (unfold IsValue in omega arith) (unfold IsGiven NoNul IsValue in omega arith)
      (unfold IsGiven NoNul in (tt, tt)) (omega arith) (omega arith)
      (unfold completed_text part decimal decimal_loop in omega arith) (unfold alloc_dbc in refl)

-- A header in which a function's number is the length of its name.
abbrev by_length : Header
by_length name = length name

get_functions-agree_example :
    (words : ℕ → ℕ → Bool) × (array : ℕ → Bool) × (get_functions by_length
        (by_length all_functions_3)
      ≡ some (bitmap words))
    × (get_functions by_length (by_length all_functions_2) ≡ some (numbers array))
    × (get_functions by_length 14 ≡ some (one (is_supported by_length 14 supported)))
    × (words (14 / 16) (14 % 16) ≡ is_supported by_length 14 supported)
    × (14 < 100 → array 14 ≡ is_supported by_length 14 supported)
get_functions-agree_example =
    get_functions-agree by_length 14 (omega arith) (unfold supported in omega arith) (omega arith)
      (omega arith)
