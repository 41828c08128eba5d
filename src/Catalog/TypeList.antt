-- ===== src/Catalog/TypeList.antt =====
-- `type_list_contains` of src/catalog.c.
pub mod Printed
pub mod Wanted
use frostlake_odbc.Base.{
  ℕ, zero, suc, ◌+◌, ◌-◌, Bool, true, false, ◌&&◌, ◌||◌, not, Option, none, some, List, [], ◌∷◌,
  ◌==◌, if◌then◌else◌, Bytes, length,
}
use frostlake_odbc.Response.Types.{equal_ignoring_case}
use frostlake_odbc.Catalog.Query.{is_empty_or_all}

-- What the first inner loop steps over.
unfoldable pub is_between : ℕ → Bool
is_between c = c == b' ' || c == b',' || c == b'\''

unfoldable pub skip_between : Bytes → Bytes
skip_between [] = []
skip_between (c ∷ s) = if is_between c then skip_between s else c ∷ s

-- What ends a name.
unfoldable pub ends_name : ℕ → Bool
ends_name c = c == b',' || c == b'\''

-- The name in front, and what stands behind it.
unfoldable pub read_name : Bytes → Bytes × Bytes
read_name [] = ([], [])
read_name (c ∷ s) =
    let rest = read_name s in if ends_name c then ([], c ∷ s) else (c ∷ rest.0, rest.1)

unfoldable pub all_spaces : Bytes → Bool
all_spaces [] = true
all_spaces (c ∷ s) = c == b' ' && all_spaces s

-- `while (end > start && end[-1] == ' ') end--;`
unfoldable pub trim_spaces : Bytes → Bytes
trim_spaces [] = []
trim_spaces (c ∷ s) = if all_spaces (c ∷ s) then [] else c ∷ trim_spaces s

-- The outer loop. Each round takes at least one byte, so a fuel of the length is enough.
unfoldable pub names_wanted : ℕ → Bytes → Bytes → Bool
names_wanted zero list wanted = false
names_wanted (suc fuel) [] wanted = false
names_wanted (suc fuel) (c ∷ s) wanted =
    let name = read_name (skip_between (c ∷ s)) in
    let later = names_wanted fuel name.1 wanted in
    if equal_ignoring_case wanted (trim_spaces name.0) then true else later

unfoldable pub list_wanted : Option Bytes → Bytes → Bool
list_wanted none wanted = true
list_wanted (some list) wanted = names_wanted (length list) list wanted

unfoldable pub type_list_contains : Option Bytes → Bytes → Bool
type_list_contains list wanted = if is_empty_or_all list then true else list_wanted list wanted
