-- ===== src/Connect/Complete/Keys.antt =====
-- The lookup in a connection string of src/connect.c whose last pair ends with the string.
use frostlake_odbc.Base.{
  ℕ, zero, suc, ◌≡◌, ◌<◌, ap, ◌∙◌, arith, false, Option, none, some, List, [], ◌∷◌, ◌++◌,
  if◌then◌else◌, Bytes, All, length, length-append,
}
use frostlake_odbc.Response.Types.{equal_ignoring_case}
use frostlake_odbc.Connect.Text.{get_from, conn_str_get}
use frostlake_odbc.Connect.Text.Lookup.{
  Attribute, IsAttribute, IsKeyChar, IsValue, value_text, length-value_text, get_from-attribute,
  get_from-last,
}

-- Attributes of which the last has no semicolon behind it.
unfoldable pub open_text : List Attribute → Bytes → Bytes → Bytes
open_text [] key text = key ++ (b'=' ∷ text)
open_text (a ∷ attributes) key text =
    a.key ++ (b'=' ∷ value_text a.braced a.text (open_text attributes key text))

unfoldable pub find_open : Bytes → List Attribute → Bytes → Bytes → Option Bytes
find_open wanted [] key text = if equal_ignoring_case wanted key then some text else none
find_open wanted (a ∷ attributes) key text =
    if equal_ignoring_case wanted a.key then some a.text else find_open wanted attributes key text

get_from-find_open :
    (attributes : List Attribute) (fuel : ℕ) (wanted key text : Bytes)
    → All IsAttribute attributes
    → All IsKeyChar key
    → 0 < length key
    → IsValue false text
    → length attributes < fuel
    → get_from fuel wanted (open_text attributes key text) ≡ find_open wanted attributes key text
unfolding open_text find_open IsAttribute
get_from-find_open attributes zero wanted key text h k p v l = absurd (omega (arith, l))
get_from-find_open [] (suc fuel) wanted key text h k p v l =
    get_from-last fuel wanted key text k p v
get_from-find_open (a ∷ attributes) (suc fuel) wanted key text h k p v l =
    get_from-attribute fuel wanted a.key a.braced a.text (open_text attributes key text) h.0.0 h.0.1
      h.0.2
    ∙ ap (λ o. if equal_ignoring_case wanted a.key then some a.text else o)
        (get_from-find_open attributes fuel wanted key text h.1 k p v (omega (arith, l)))

open_text-longer :
    (attributes : List Attribute) (key text : Bytes)
    → length attributes < length (open_text attributes key text)
unfolding open_text
open_text-longer [] key text = omega (arith, length-append key (b'=' ∷ text))
open_text-longer (a ∷ attributes) key text = grind (
  arith,
  length-append a.key (b'=' ∷ value_text a.braced a.text (open_text attributes key text)),
  length-value_text a.braced a.text (open_text attributes key text),
  open_text-longer attributes key text,
)

pub conn_str_get-open_text :
    (attributes : List Attribute) (wanted key text : Bytes)
    → All IsAttribute attributes
    → All IsKeyChar key
    → 0 < length key
    → IsValue false text
    → conn_str_get (open_text attributes key text) wanted ≡ find_open wanted attributes key text
unfolding conn_str_get
conn_str_get-open_text attributes wanted key text h k p v =
    get_from-find_open attributes _ wanted key text h k p v (open_text-longer attributes key text)
