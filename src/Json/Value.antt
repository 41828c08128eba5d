-- ===== src/Json/Value.antt =====
-- The tree of src/json.h (`fl_json`) and its lookups. A node's kind is its constructor; the arrays
-- `children` and `keys`, which run in parallel, are one list.
use frostlake_odbc.Base.{
  ℕ, zero, suc, Bool, Option, none, some, if◌then◌else◌, Bytes, c_string, equal,
}

mutual
  pub data Json : Type 0 where
    null : Json
    bool : Bool → Json
    number : Bytes → Json
    string : Bytes → Json
    array : Items → Json
    object : Fields → Json

  pub data Items : Type 0 where
    nil : Items
    cons : Json → Items → Items

  pub data Fields : Type 0 where
    end : Fields
    field : Bytes → Json → Fields → Fields

-- The member under the first key that `strcmp` finds equal: a key is read up to its NUL.
unfoldable pub find_field : Fields → Bytes → Option Json
find_field end key = none
find_field (field k v fs) key = if equal (c_string k) key then some v else find_field fs key

unfoldable pub get : Option Json → Bytes → Option Json
get (some (object fs)) key = find_field fs key
get (some _) key = none
get none key = none

-- The text behind a `char *`: up to its NUL.
unfoldable pub as_string : Option Json → Option Bytes
as_string (some (string s)) = some (c_string s)
as_string (some _) = none
as_string none = none

unfoldable pub get_string : Option Json → Bytes → Option Bytes
get_string j key = as_string (get j key)

abbrev pub items_at : Items → ℕ → Option Json
items_at nil i = none
items_at (cons v vs) zero = some v
items_at (cons v vs) (suc i) = items_at vs i

unfoldable pub at : Option Json → ℕ → Option Json
at (some (array vs)) i = items_at vs i
at (some _) i = none
at none i = none

-- `child_count` of a node, whatever its kind.
abbrev pub items_count : Items → ℕ
items_count nil = 0
items_count (cons v vs) = suc (items_count vs)

abbrev pub fields_count : Fields → ℕ
fields_count end = 0
fields_count (field k v fs) = suc (fields_count fs)

unfoldable pub child_count : Json → ℕ
child_count (array vs) = items_count vs
child_count (object fs) = fields_count fs
child_count _ = 0

unfoldable pub as_bool : Option Json → Bool → Bool
as_bool (some (bool b)) fallback = b
as_bool (some _) fallback = fallback
as_bool none fallback = fallback

unfoldable pub get_bool : Option Json → Bytes → Bool → Bool
get_bool j key fallback = as_bool (get j key) fallback
