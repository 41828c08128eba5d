-- ===== src/Session/Effect.antt =====
-- What one statement does, from its leading words: `listed`, `object_kind`, `touches_session` and
-- `transaction_effect` of src/session.c.
use frostlake_odbc.Base.{
  Bool, true, false, ◌&&◌, ◌||◌, List, [], ◌∷◌, if◌then◌else◌, Bytes, codes, equal,
}

unfoldable pub listed : List Bytes → Bytes → Bool
listed [] word = false
listed (w ∷ list) word = equal w word || listed list word

abbrev pub modifiers : List Bytes
modifiers =
    codes "OR"
    ∷ codes "REPLACE"
    ∷ codes "TRANSIENT"
    ∷ codes "TEMPORARY"
    ∷ codes "TEMP"
    ∷ codes "VOLATILE"
    ∷ codes "LOCAL"
    ∷ codes "GLOBAL"
    ∷ codes "SECURE"
    ∷ codes "IF"
    ∷ codes "NOT"
    ∷ codes "EXISTS"
    ∷ codes "PUBLIC"
    ∷ codes "PRIVATE"
    ∷ codes "ICEBERG"
    ∷ codes "DYNAMIC"
    ∷ codes "HYBRID"
    ∷ codes "EVENT"
    ∷ codes "RECURSIVE"
    ∷ codes "MATERIALIZED"
    ∷ codes "EXTERNAL"
    ∷ []

abbrev pub temporary : List Bytes
temporary = codes "TEMPORARY" ∷ codes "TEMP" ∷ codes "VOLATILE" ∷ []

-- The first word behind the verb that is no modifier, or the empty one.
unfoldable pub object_kind : List Bytes → Bytes
object_kind [] = []
object_kind (w ∷ words) = if listed modifiers w then object_kind words else w

-- A temporary modifier among the modifiers that follow the verb.
unfoldable pub has_temporary : List Bytes → Bool
has_temporary [] = false
has_temporary (w ∷ words) = listed modifiers w && (listed temporary w || has_temporary words)

unfoldable pub touches_session : List Bytes → Bool
touches_session [] = false
touches_session (verb ∷ words) =
    if equal verb (codes "USE") || equal verb (codes "SET") || equal verb (codes "UNSET")
    then true
    else if equal verb (codes "ALTER")
    then equal (object_kind words) (codes "SESSION")
    else if equal verb (codes "CREATE") || equal verb (codes "DROP")
    then (if equal (object_kind words) (codes "DATABASE")
          || equal (object_kind words) (codes "SCHEMA")
        then true
        else equal verb (codes "CREATE") && has_temporary words)
    else false

-- 1, -1 and 0.
pub data Effect : Type 0 where
  opens ends neither : Effect

-- BEGIN on its own, or in front of TRANSACTION, WORK or NAME.
unfoldable pub begin_effect : List Bytes → Effect
begin_effect [] = opens
begin_effect (w ∷ _) =
    if equal w (codes "TRANSACTION") || equal w (codes "WORK") || equal w (codes "NAME")
    then opens
    else neither

unfoldable pub starts_transaction : List Bytes → Bool
starts_transaction [] = false
starts_transaction (w ∷ _) = equal w (codes "TRANSACTION")

unfoldable pub transaction_effect : List Bytes → Effect
transaction_effect [] = neither
transaction_effect (verb ∷ words) =
    if equal verb (codes "BEGIN")
    then begin_effect words
    else if equal verb (codes "START") && starts_transaction words
    then opens
    else if equal verb (codes "COMMIT") || equal verb (codes "ROLLBACK")
    then ends
    else neither
