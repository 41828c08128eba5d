-- ===== src/Session/Note/Phrases.antt =====
-- What the statements that src/session.c looks for begin with, as lists of phrases.
use frostlake_odbc.Base.{
  ℕ, ◌≡◌, refl, ap, ◌∙◌, sym, subst, arith, Bool, true, false, ◌&&◌, ◌||◌, List, [], ◌∷◌,
  if◌then◌else◌, Bool-cases, inl, inr, Bytes, codes, equal,
}
use frostlake_odbc.Session.Effect.{
  listed, modifiers, temporary, object_kind, has_temporary, touches_session, Effect, opens, ends,
  neither, begin_effect, starts_transaction, transaction_effect,
}

-- The phrase stands in front of the words.
unfoldable pub begins : List Bytes → List Bytes → Bool
begins [] words = true
begins (p ∷ phrase) [] = false
begins (p ∷ phrase) (w ∷ words) = equal w p && begins phrase words

unfoldable pub begins_one : List (List Bytes) → List Bytes → Bool
begins_one [] words = false
begins_one (phrase ∷ phrases) words = begins phrase words || begins_one phrases words

abbrev pub ending : List (List Bytes)
ending = (codes "COMMIT" ∷ []) ∷ (codes "ROLLBACK" ∷ []) ∷ []

abbrev pub opening : List (List Bytes)
opening =
    (codes "START" ∷ codes "TRANSACTION" ∷ [])
    ∷ (codes "BEGIN" ∷ codes "TRANSACTION" ∷ [])
    ∷ (codes "BEGIN" ∷ codes "WORK" ∷ [])
    ∷ (codes "BEGIN" ∷ codes "NAME" ∷ [])
    ∷ []

-- A single word BEGIN.
unfoldable pub is_begin : List Bytes → Bool
is_begin (w ∷ []) = equal w (codes "BEGIN")
is_begin _ = false

-- Statements that set up context whatever follows.
abbrev pub setting : List (List Bytes)
setting = (codes "USE" ∷ []) ∷ (codes "SET" ∷ []) ∷ (codes "UNSET" ∷ []) ∷ []

-- And those that do when the modifiers behind their verb are left out.
abbrev pub moving : List (List Bytes)
moving =
    (codes "ALTER" ∷ codes "SESSION" ∷ [])
    ∷ (codes "CREATE" ∷ codes "DATABASE" ∷ [])
    ∷ (codes "CREATE" ∷ codes "SCHEMA" ∷ [])
    ∷ (codes "DROP" ∷ codes "DATABASE" ∷ [])
    ∷ (codes "DROP" ∷ codes "SCHEMA" ∷ [])
    ∷ []

unfoldable pub past_modifiers : List Bytes → List Bytes
past_modifiers [] = []
past_modifiers (w ∷ words) =
    let later = past_modifiers words in if listed modifiers w then later else w ∷ words

unfoldable pub bare : List Bytes → List Bytes
bare [] = []
bare (verb ∷ words) = verb ∷ past_modifiers words

unfoldable pub leading_modifiers : List Bytes → List Bytes
leading_modifiers [] = []
leading_modifiers (w ∷ words) =
    let later = leading_modifiers words in if listed modifiers w then w ∷ later else []

unfoldable pub any_temporary : List Bytes → Bool
any_temporary [] = false
any_temporary (w ∷ words) = listed temporary w || any_temporary words

has_temporary-any :
    (words : List Bytes) → has_temporary words ≡ any_temporary (leading_modifiers words)
unfolding has_temporary any_temporary leading_modifiers
has_temporary-any [] = refl
has_temporary-any (w ∷ words) = ground (arith, has_temporary-any words)

-- A CREATE with a temporary modifier among the modifiers behind it.
unfoldable pub makes_temporary : List Bytes → Bool
makes_temporary [] = false
makes_temporary (verb ∷ words) =
    equal verb (codes "CREATE") && any_temporary (leading_modifiers words)

unfoldable pub sets_context : List Bytes → Bool
sets_context words =
    begins_one setting words || begins_one moving (bare words) || makes_temporary words

equal_sound : (a b : Bytes) → equal a b ≡ true → a ≡ b
unfolding equal
equal_sound [] [] e = refl
equal_sound [] (d ∷ b) e = absurd (ground arith)
equal_sound (c ∷ a) [] e = absurd (ground arith)
equal_sound (c ∷ a) (d ∷ b) e =
    let h : (c ≡ d) × (equal a b ≡ true) = ground (arith, e) in
    ap (λ x. x ∷ a) h.0 ∙ ap (◌∷◌ d) (equal_sound a b h.1)

-- Whatever the verb, when it is none of those that the source looks for, or one of them.
by_verb :
    (P : Bytes → Type 0) (verb known : Bytes)
    → P known
    → (equal verb known ≡ false → P verb)
    → P verb
by_verb P verb known h k = elim (Bool-cases (equal verb known)) [
  | inl e ↦ subst P (sym (equal_sound verb known e)) h
  | inr e ↦ k e
]

object_kind-past :
    (words : List Bytes) (kind : Bytes) (rest : List Bytes)
    → past_modifiers words ≡ kind ∷ rest
    → object_kind words ≡ kind
unfolding past_modifiers object_kind
object_kind-past [] kind rest e = absurd (ground arith)
object_kind-past (w ∷ words) kind rest e = ground (arith, e, object_kind-past words kind rest)

object_kind-none : (words : List Bytes) → past_modifiers words ≡ [] → object_kind words ≡ []
unfolding past_modifiers object_kind
object_kind-none [] e = refl
object_kind-none (w ∷ words) e = ground (arith, e, object_kind-none words)

-- The word that `object_kind` finds stands first behind the modifiers.
kind_begins_at :
    (words : List Bytes) (c : ℕ) (name : Bytes) (left : List Bytes)
    → past_modifiers words ≡ left
    → equal (object_kind words) (c ∷ name) ≡ begins ((c ∷ name) ∷ []) left
unfolding begins
kind_begins_at words c name [] e = rw (object_kind-none words e) (unfold equal in refl)
kind_begins_at words c name (kind ∷ rest) e = rw (object_kind-past words kind rest e) (ground arith)

kind_begins :
    (words : List Bytes) (c : ℕ) (name : Bytes)
    → equal (object_kind words) (c ∷ name) ≡ begins ((c ∷ name) ∷ []) (past_modifiers words)
kind_begins words c name = kind_begins_at words c name (past_modifiers words) refl

-- Both descriptions of what sets up context, on a statement's words.
unfoldable Touches : List Bytes → Bytes → Type 0
Touches words verb = touches_session (verb ∷ words) ≡ sets_context (verb ∷ words)

only_kind : (k : Bool) → k ≡ (k || false) || false
only_kind k = ground arith

two_kinds : (d k t : Bool) → (if d || k then true else t) ≡ (d || (k || false)) || t
two_kinds d k t = ground arith

alter-Touches : (words : List Bytes) → Touches words (codes "ALTER")
unfolding Touches touches_session sets_context begins_one begins makes_temporary bare equal
alter-Touches words =
    kind_begins words _ _ ∙ only_kind (begins (codes "SESSION" ∷ []) (past_modifiers words))

create-Touches : (words : List Bytes) → Touches words (codes "CREATE")
unfolding Touches touches_session sets_context begins_one begins makes_temporary bare equal
create-Touches words =
    rw
      (
        kind_begins words b'D' (codes "ATABASE"),
        kind_begins words b'S' (codes "CHEMA"),
        has_temporary-any words,
      )
      (two_kinds (begins (codes "DATABASE" ∷ []) (past_modifiers words))
        (begins (codes "SCHEMA" ∷ []) (past_modifiers words))
        (any_temporary (leading_modifiers words)))

drop-Touches : (words : List Bytes) → Touches words (codes "DROP")
unfolding Touches touches_session sets_context begins_one begins makes_temporary bare equal
drop-Touches words =
    rw (kind_begins words b'D' (codes "ATABASE"), kind_begins words b'S' (codes "CHEMA"))
      (two_kinds (begins (codes "DATABASE" ∷ []) (past_modifiers words))
        (begins (codes "SCHEMA" ∷ []) (past_modifiers words)) false)

setting-Touches :
    (words : List Bytes)
    → Touches words (codes "USE") × Touches words (codes "SET") × Touches words (codes "UNSET")
unfolding Touches touches_session sets_context begins_one begins equal
setting-Touches words = (refl, refl, refl)

other-Touches :
    (words : List Bytes) (verb : Bytes)
    → equal verb (codes "USE") ≡ false
    → equal verb (codes "SET") ≡ false
    → equal verb (codes "UNSET") ≡ false
    → equal verb (codes "ALTER") ≡ false
    → equal verb (codes "CREATE") ≡ false
    → equal verb (codes "DROP") ≡ false
    → Touches words verb
unfolding Touches touches_session sets_context begins_one begins makes_temporary bare
other-Touches words verb u s n a c d = rw (u, s, n, a, c, d) refl

-- `touches_session` finds the statements of these phrases.
pub touches_session-phrases : (words : List Bytes) → touches_session words ≡ sets_context words
unfolding Touches
touches_session-phrases [] =
    unfold touches_session sets_context begins_one begins bare makes_temporary in refl
touches_session-phrases (verb ∷ words) =
    by_verb (Touches words) verb (codes "USE") (setting-Touches words).0 (λ u.
      by_verb (Touches words) verb (codes "SET") (setting-Touches words).1 (λ s.
        by_verb (Touches words) verb (codes "UNSET") (setting-Touches words).2 (λ n.
          by_verb (Touches words) verb (codes "ALTER") (alter-Touches words) (λ a.
            by_verb (Touches words) verb (codes "CREATE") (create-Touches words) (λ c.
              by_verb (Touches words) verb (codes "DROP") (drop-Touches words)
                (λ d. other-Touches words verb u s n a c d))))))

-- What the phrases say of a transaction.
unfoldable pub phrase_effect : List Bytes → Effect
phrase_effect words =
    if begins_one ending words
    then ends
    else if begins_one opening words || is_begin words
    then opens
    else neither

unfoldable Acts : List Bytes → Bytes → Type 0
Acts words verb = transaction_effect (verb ∷ words) ≡ phrase_effect (verb ∷ words)

one_of_three :
    (t w n : Bool)
    → (if t || w || n then opens else neither)
      ≡ (if (t && true || (w && true || (n && true || false))) || false then opens else neither)
one_of_three t w n = ground arith

one_of_one :
    (t : Bool)
    → (if t then opens else neither) ≡ (if (t && true || false) || false then opens else neither)
one_of_one t = ground arith

begin-Acts : (words : List Bytes) → Acts words (codes "BEGIN")
unfolding Acts phrase_effect transaction_effect begins_one begins is_begin equal begin_effect
begin-Acts [] = refl
begin-Acts (w ∷ words) =
    one_of_three (equal w (codes "TRANSACTION")) (equal w (codes "WORK")) (equal w (codes "NAME"))

start-Acts : (words : List Bytes) → Acts words (codes "START")
unfolding Acts phrase_effect transaction_effect begins_one begins is_begin equal starts_transaction
start-Acts [] = refl
start-Acts (w ∷ words) = one_of_one (equal w (codes "TRANSACTION"))

ending-Acts : (words : List Bytes) → Acts words (codes "COMMIT") × Acts words (codes "ROLLBACK")
unfolding Acts phrase_effect transaction_effect begins_one begins equal
ending-Acts words = (refl, refl)

other-Acts :
    (words : List Bytes) (verb : Bytes)
    → equal verb (codes "BEGIN") ≡ false
    → equal verb (codes "START") ≡ false
    → equal verb (codes "COMMIT") ≡ false
    → equal verb (codes "ROLLBACK") ≡ false
    → Acts words verb
unfolding Acts phrase_effect transaction_effect begins_one begins is_begin
other-Acts [] verb b s c r = rw (b, s, c, r) refl
other-Acts (w ∷ words) verb b s c r = rw (b, s, c, r) refl

-- `transaction_effect` finds what the phrases say.
pub transaction_effect-phrases :
    (words : List Bytes) → transaction_effect words ≡ phrase_effect words
unfolding Acts
transaction_effect-phrases [] =
    unfold transaction_effect phrase_effect begins_one begins is_begin in refl
transaction_effect-phrases (verb ∷ words) =
    by_verb (Acts words) verb (codes "BEGIN") (begin-Acts words) (λ b.
      by_verb (Acts words) verb (codes "START") (start-Acts words) (λ s.
        by_verb (Acts words) verb (codes "COMMIT") (ending-Acts words).0 (λ c.
          by_verb (Acts words) verb (codes "ROLLBACK") (ending-Acts words).1
            (λ r. other-Acts words verb b s c r))))
