-- ===== src/Connect/Info/Cut.antt =====
-- SQLNativeSql of src/connect.c against `fl_copy_string` of src/util.c.
use frostlake_odbc.Base.{
  ℕ, ◌-◌, ◌<◌, ◌≡◌, refl, ap, arith, Bool, true, false, Option, some, Bytes, length, take, [], ◌∷◌,
  zero, suc, ◌≤◌,
}
use frostlake_odbc.Base.Int.{ℤ, pos, negsuc}
use frostlake_odbc.Bind.Param.{text_of}
use frostlake_odbc.Results.Convert.Model.{usable}
use frostlake_odbc.Statement.Describe.{copy_into, copy_string}
use frostlake_odbc.Connect.Info.{copy_native, native_sql}

pub take-all : (s : Bytes) (n : ℕ) → length s ≤ n → take n s ≡ s
take-all [] zero h = refl
take-all [] (suc n) h = refl
take-all (c ∷ s) zero h = absurd (omega (arith, h))
take-all (c ∷ s) (suc n) h = ap (λ t. c ∷ t) (take-all s n (omega (arith, h)))

copy_native-copy_into :
    (text : Bytes) (n : ℕ) → 0 < n → copy_native text (some n) ≡ copy_into text (some n)
unfolding copy_native copy_into
copy_native-copy_into text n h = ground (arith, take-all text (length text), take-all text (n - 1))

usable-positive :
    (text : Bytes) (present : Bool) (size : ℤ)
    → copy_native text (usable present size) ≡ copy_into text (usable present size)
unfolding usable
usable-positive text false size = unfold copy_native copy_into in refl
usable-positive text true (pos zero) = unfold copy_native copy_into in refl
usable-positive text true (pos (suc n)) = copy_native-copy_into text (suc n) (omega arith)
usable-positive text true (negsuc n) = unfold copy_native copy_into in refl

-- SQLNativeSql answers what `fl_copy_string` would: the same return code, and the same text in the
-- application's buffer, for every text, buffer and size of it.
pub native_sql-copy_string :
    (given : Option ℕ) (memory : Bytes) (present : Bool) (size : ℤ)
    → ((native_sql given memory present size).text
        ≡ (copy_string (text_of given memory) present size).text)
      × ((native_sql given memory present size).code
          ≡ (copy_string (text_of given memory) present size).code)
unfolding native_sql copy_string
native_sql-copy_string given memory present size =
    rw (usable-positive (text_of given memory) present size) (refl, refl)
