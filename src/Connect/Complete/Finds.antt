-- ===== src/Connect/Complete/Finds.antt =====
-- What the lookups of SQLDriverConnect in src/connect.c find in a completed connection string.
use frostlake_odbc.Base.{
  ℕ, ◌≡◌, ◌≢◌, ◌<◌, refl, ap, sym, ◌∙◌, arith, Bool, true, false, Option, none, some, List, [], ◌∷◌,
  ◌++◌, append-nil, Bytes, codes, All, length, subst,
}
use frostlake_odbc.Response.Types.{equal_ignoring_case}
use frostlake_odbc.Sql.Ident.{to_upper}
use frostlake_odbc.Sql.Scanner.{is_lower}
use frostlake_odbc.Proto.Request.{decimal}
use frostlake_odbc.Connect.Text.{conn_str_get}
use frostlake_odbc.Connect.Text.Lookup.{Attribute, IsAttribute, IsKeyChar, IsValue, value_text}
use frostlake_odbc.Connect.Open.{at_port}
use frostlake_odbc.Connect.Complete.{part, completed_text}
use frostlake_odbc.Proto.Request.Decimal.{IsDigitChar, decimal-IsDigitChar}
use frostlake_odbc.Connect.Complete.Keys.{open_text, find_open, conn_str_get-open_text}

attribute : Bytes → Bytes → Bool → Attribute
attribute key text braced = record { key = key; text = text; braced = braced }

driver : Attribute
driver = attribute (codes "Driver") (codes "Frostlake ODBC Driver") true

plain : Bytes → Bytes → Attribute
plain key text = attribute key text false

-- A text of an attribute, when it is given.
unfoldable pub IsGiven : Option Bytes → Type 0
IsGiven none = Unit
IsGiven (some text) = IsValue false text

unfoldable pub NoNul : Option Bytes → Type 0
NoNul none = Unit
NoNul (some text) = All (λ c. c ≢ 0) text

-- What the five lookups of SQLDriverConnect find.
unfoldable pub Finds : Bytes → Bytes → ℕ → Option Bytes → Option Bytes → Type 0
Finds conn host port database schema =
    (conn_str_get conn (codes "DSN") ≡ none)
    × (conn_str_get conn (codes "Server") ≡ some host)
    × (conn_str_get conn (codes "Port") ≡ some (decimal port))
    × (conn_str_get conn (codes "Database") ≡ database)
    × (conn_str_get conn (codes "Schema") ≡ schema)

driver-IsAttribute : IsAttribute driver
unfolding driver attribute IsAttribute IsValue
driver-IsAttribute = omega arith

plain-IsAttribute :
    (key text : Bytes)
    → All IsKeyChar key
    → 0 < length key
    → IsValue false text
    → IsAttribute (plain key text)
unfolding plain attribute IsAttribute
plain-IsAttribute key text h l v = (h, l, v)

decimal-IsValue : (port : ℕ) → IsValue false (decimal port)
unfolding IsValue
decimal-IsValue port = of_digits (decimal port) (decimal-IsDigitChar port)
  where
    of_digits : (s : Bytes) → All IsDigitChar s → All (λ c. (c ≢ b';') × (c ≢ b'{')) s
    of_digits [] h = tt
    of_digits (c ∷ s) h =
        ((λ e. omega (arith, h.0, e), λ e. omega (arith, h.0, e)), of_digits s h.1)

-- The attributes in front of the last one.
front : Bytes → List Attribute → List Attribute
front host more = driver ∷ plain (codes "Server") host ∷ more

front-AllAttribute :
    (host : Bytes) (more : List Attribute)
    → IsValue false host
    → All IsAttribute more
    → All IsAttribute (front host more)
unfolding front
front-AllAttribute host more h k =
    (driver-IsAttribute, (plain-IsAttribute (codes "Server") host (omega arith) (omega arith) h, k))

-- What the five searches find.
FindsOpen : List Attribute → Bytes → Bytes → Bytes → ℕ → Option Bytes → Option Bytes → Type 0
FindsOpen attributes key text host port database schema =
    (find_open (codes "DSN") attributes key text ≡ none)
    × (find_open (codes "Server") attributes key text ≡ some host)
    × (find_open (codes "Port") attributes key text ≡ some (decimal port))
    × (find_open (codes "Database") attributes key text ≡ database)
    × (find_open (codes "Schema") attributes key text ≡ schema)

finds_open :
    (more : List Attribute) (key text host : Bytes) (port : ℕ) (database schema : Option Bytes)
    → All IsAttribute more
    → All IsKeyChar key
    → 0 < length key
    → IsValue false text
    → IsValue false host
    → FindsOpen (front host more) key text host port database schema
    → Finds (open_text (front host more) key text) host port database schema
unfolding FindsOpen Finds
finds_open more key text host port database schema m k l v h (dsn, server, at_port, db, sch) =
    (found _ ∙ dsn, found _ ∙ server, found _ ∙ at_port, found _ ∙ db, found _ ∙ sch)
  where
    found :
        (wanted : Bytes)
        → conn_str_get (open_text (front host more) key text) wanted
          ≡ find_open wanted (front host more) key text
    found wanted =
        conn_str_get-open_text (front host more) wanted key text (front-AllAttribute host more h m)
          k l v

port_attribute : ℕ → Attribute
port_attribute port = plain (codes "Port") (decimal port)

port-IsAttribute : (port : ℕ) → IsAttribute (port_attribute port)
unfolding port_attribute
port-IsAttribute port =
    plain-IsAttribute (codes "Port") (decimal port) (omega arith) (omega arith)
      (decimal-IsValue port)

text-none :
    (host : Bytes) (port : ℕ)
    → completed_text host port none none ≡ open_text (front host []) (codes "Port") (decimal port)
unfolding completed_text part open_text front driver plain attribute value_text
text-none host port =
    ap (λ s. codes "Driver={Frostlake ODBC Driver};Server=" ++ (host ++ (codes ";Port=" ++ s)))
      (append-nil (decimal port))

text-database :
    (host : Bytes) (port : ℕ) (x : Bytes)
    → completed_text host port (some x) none
      ≡ open_text (front host (port_attribute port ∷ [])) (codes "Database") x
unfolding completed_text part open_text front driver plain attribute value_text port_attribute
text-database host port x =
    ap
      (λ s.
        codes "Driver={Frostlake ODBC Driver};Server="
        ++ (host ++ (codes ";Port=" ++ (decimal port ++ (codes ";Database=" ++ s)))))
      (append-nil x)

text-schema :
    (host : Bytes) (port : ℕ) (y : Bytes)
    → completed_text host port none (some y)
      ≡ open_text (front host (port_attribute port ∷ [])) (codes "Schema") y
unfolding completed_text part open_text front driver plain attribute value_text port_attribute
text-schema host port y = refl

text-both :
    (host : Bytes) (port : ℕ) (x y : Bytes)
    → completed_text host port (some x) (some y)
      ≡ open_text
          (front host (port_attribute port ∷ plain (codes "Database") x ∷ []))
          (codes "Schema")
          y
unfolding completed_text part open_text front driver plain attribute value_text port_attribute
text-both host port x y = refl

pub completed_text-Finds :
    (host : Bytes) (port : ℕ) (database schema : Option Bytes)
    → IsValue false host
    → IsGiven database
    → IsGiven schema
    → Finds (completed_text host port database schema) host port database schema
unfolding IsGiven FindsOpen find_open equal_ignoring_case to_upper is_lower front driver plain
    attribute port_attribute
completed_text-Finds host port none none h d s =
    subst (λ t. Finds t host port none none) (sym (text-none host port))
      (finds_open [] (codes "Port") (decimal port) host port none none tt (omega arith)
        (omega arith) (decimal-IsValue port) h (refl, refl, refl, refl, refl))
completed_text-Finds host port (some x) none h d s =
    subst (λ t. Finds t host port (some x) none) (sym (text-database host port x))
      (finds_open (port_attribute port ∷ []) (codes "Database") x host port (some x) none
        (port-IsAttribute port, tt) (omega arith) (omega arith) d h (refl, refl, refl, refl, refl))
completed_text-Finds host port none (some y) h d s =
    subst (λ t. Finds t host port none (some y)) (sym (text-schema host port y))
      (finds_open (port_attribute port ∷ []) (codes "Schema") y host port none (some y)
        (port-IsAttribute port, tt) (omega arith) (omega arith) s h (refl, refl, refl, refl, refl))
completed_text-Finds host port (some x) (some y) h d s =
    subst (λ t. Finds t host port (some x) (some y)) (sym (text-both host port x y))
      (finds_open (port_attribute port ∷ plain (codes "Database") x ∷ []) (codes "Schema") y host
        port (some x) (some y)
        (
          port-IsAttribute port,
          (plain-IsAttribute (codes "Database") x (omega arith) (omega arith) d, tt),
        )
        (omega arith) (omega arith) s h (refl, refl, refl, refl, refl))
