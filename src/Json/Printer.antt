-- ===== src/Json/Printer.antt =====
-- An independent description of compact JSON text, and what the reader makes of it.
use Prim.Native.Nat.{max}
use frostlake_odbc.Base.{
  ℕ, zero, suc, ◌≤◌, ◌≡◌, refl, Bool, true, false, ◌&&◌, [], ◌∷◌, ◌++◌, Bytes, codes, All, peek,
}
use frostlake_odbc.Json.Text.{escape}
use frostlake_odbc.Json.Value.{
  Json, Items, Fields, null, bool, number, string, array, object, nil, cons, end, field,
}
use frostlake_odbc.Json.Reader.{is_number_char}
pub mod Scalars
pub mod RoundTrip

abbrev pub quote : Bytes → Bytes
quote text = b'"' ∷ (escape text ++ (b'"' ∷ []))

abbrev pub bool_text : Bool → Bytes
bool_text true = codes "true"
bool_text false = codes "false"

-- The members behind the first one each stand behind a comma.
unfoldable mutual
  pub print : Json → Bytes
  print null = codes "null"
  print (bool b) = bool_text b
  print (number lexeme) = lexeme
  print (string text) = quote text
  print (array nil) = b'[' ∷ b']' ∷ []
  print (array (cons v vs)) = b'[' ∷ (print v ++ print_items vs)
  print (object end) = b'{' ∷ b'}' ∷ []
  print (object (field k v fs)) = b'{' ∷ (quote k ++ (b':' ∷ (print v ++ print_fields fs)))

  pub print_items : Items → Bytes
  print_items nil = b']' ∷ []
  print_items (cons v vs) = b',' ∷ (print v ++ print_items vs)

  pub print_fields : Fields → Bytes
  print_fields end = b'}' ∷ []
  print_fields (field k v fs) = b',' ∷ (quote k ++ (b':' ∷ (print v ++ print_fields fs)))
