-- ===== src/Catalog/TypeList/Printed.antt =====
-- `type_list_contains` of src/catalog.c on the lists that applications write.
use frostlake_odbc.Base.{
  ℕ, zero, suc, ◌≤◌, ◌≡◌, ◌≢◌, refl, ap, sym, arith, Bool, true, false, List, [], ◌∷◌, ◌++◌,
  append_assoc, append-nil, if◌then◌else◌, Bytes, length, All, peek,
}
use frostlake_odbc.Response.Types.{equal_ignoring_case}
use frostlake_odbc.Catalog.TypeList.{
  is_between, skip_between, ends_name, read_name, all_spaces, trim_spaces, names_wanted,
}

-- A name, and whether it stands in quotes.
unfoldable pub print_type : Bool × Bytes → Bytes
print_type (true, name) = b'\'' ∷ (name ++ (b'\'' ∷ []))
print_type (false, name) = name

unfoldable pub print_types : List (Bool × Bytes) → Bytes
print_types [] = []
print_types (x ∷ []) = print_type x
print_types (x ∷ y ∷ xs) = print_type x ++ (b',' ∷ print_types (y ∷ xs))

unfoldable pub LastPlain : Bytes → Type 0
LastPlain [] = ⊥
LastPlain (c ∷ []) = c ≢ b' '
LastPlain (c ∷ d ∷ s) = LastPlain (d ∷ s)

-- A name without commas and quotes, and with no blank in front or behind.
unfoldable pub IsTypeName : Bytes → Type 0
IsTypeName name = (peek name ≢ b' ') × LastPlain name × All (λ c. (c ≢ b',') × (c ≢ b'\'')) name

unfoldable pub names_one : Bytes → List (Bool × Bytes) → Bool
names_one wanted [] = false
names_one wanted (x ∷ xs) =
    let later = names_one wanted xs in if equal_ignoring_case wanted x.1 then true else later

LastPlain-all_spaces : (s : Bytes) → LastPlain s → all_spaces s ≡ false
unfolding LastPlain all_spaces
LastPlain-all_spaces [] h = absurd h
LastPlain-all_spaces (c ∷ []) h = ground arith
LastPlain-all_spaces (c ∷ d ∷ s) h = ground (arith, LastPlain-all_spaces (d ∷ s) h)

pub trim_spaces-plain : (s : Bytes) → LastPlain s → trim_spaces s ≡ s
unfolding trim_spaces
trim_spaces-plain [] h = refl
trim_spaces-plain (c ∷ []) h = rw (LastPlain-all_spaces (c ∷ []) h) refl
trim_spaces-plain (c ∷ d ∷ s) h =
    rw (LastPlain-all_spaces (c ∷ d ∷ s) h)
      (ap (λ t. c ∷ t) (trim_spaces-plain (d ∷ s) (unfold LastPlain in h)))

plain : (c : ℕ) → (c ≢ b',') × (c ≢ b'\'') → ends_name c ≡ false
unfolding ends_name
plain c h = ground arith

pub read_name-plain :
    (name tail : Bytes)
    → All (λ c. (c ≢ b',') × (c ≢ b'\'')) name
    → read_name tail ≡ ([], tail)
    → read_name (name ++ tail) ≡ (name, tail)
unfolding read_name
read_name-plain [] tail h k = k
read_name-plain (c ∷ name) tail h k =
    rw (plain c h.0) (ap (λ p. (c ∷ p.0, p.1)) (read_name-plain name tail h.1 k))

length-skip_between : (s : Bytes) → length (skip_between s) ≤ length s
unfolding skip_between
length-skip_between [] = omega arith
length-skip_between (c ∷ s) = ground (arith, length-skip_between s)

nothing_left : (c : ℕ) (t : Bytes) → skip_between [] ≡ c ∷ t → ⊥
unfolding skip_between
nothing_left c t e = ground arith

-- One round, on a list whose next name is `name`.
pub round :
    (fuel : ℕ) (s name tail wanted : Bytes)
    → name ≢ []
    → skip_between s ≡ name ++ tail
    → read_name (name ++ tail) ≡ (name, tail)
    → trim_spaces name ≡ name
    → names_wanted (suc fuel) s wanted
      ≡ (if equal_ignoring_case wanted name then true else names_wanted fuel tail wanted)
unfolding names_wanted
round fuel [] [] tail wanted n e r t = absurd (n refl)
round fuel [] (c ∷ name) tail wanted n e r t = absurd (nothing_left c _ e)
round fuel (c ∷ s) name tail wanted n e r t = rw (e, r, t) refl

pub skip_between-lead :
    (lead s : Bytes)
    → All (λ c. is_between c ≡ true) lead
    → skip_between (lead ++ s) ≡ skip_between s
unfolding skip_between
skip_between-lead [] s h = refl
skip_between-lead (c ∷ lead) s h = rw (h.0) (skip_between-lead lead s h.1)

first_plain : (c : ℕ) → c ≢ b' ' → (c ≢ b',') × (c ≢ b'\'') → is_between c ≡ false
unfolding is_between
first_plain c h k = ground arith

pub skip_between-name : (name t : Bytes) → IsTypeName name → skip_between (name ++ t) ≡ name ++ t
unfolding skip_between IsTypeName LastPlain
skip_between-name [] t h = absurd h.1
skip_between-name (c ∷ name) t h = rw (first_plain c h.0 h.2.0) refl

-- The quote in front and behind, when there is one, and what follows a name.
unfoldable pub mark : Bool → Bytes
mark true = b'\'' ∷ []
mark false = []

unfoldable pub more : List (Bool × Bytes) → Bytes
more [] = []
more (y ∷ xs) = b',' ∷ print_types (y ∷ xs)

pub print_types-split :
    (x : Bool × Bytes) (xs : List (Bool × Bytes))
    → print_types (x ∷ xs) ≡ mark x.0 ++ (x.1 ++ (mark x.0 ++ more xs))
unfolding print_types print_type mark more
print_types-split (true, name) [] = ap (λ t. b'\'' ∷ t) (refl)
print_types-split (false, name) [] = sym (append-nil name)
print_types-split (true, name) (y ∷ xs) =
    ap (λ t. b'\'' ∷ t) (append_assoc name (b'\'' ∷ []) (b',' ∷ print_types (y ∷ xs)))
print_types-split (false, name) (y ∷ xs) = refl

pub mark-between :
    (q : Bool) (lead : Bytes)
    → All (λ c. is_between c ≡ true) lead
    → All (λ c. is_between c ≡ true) (mark q ++ lead)
unfolding mark is_between
mark-between true lead h = (refl, h)
mark-between false lead h = h

pub read_name-mark :
    (q : Bool) (xs : List (Bool × Bytes)) → read_name (mark q ++ more xs) ≡ ([], mark q ++ more xs)
unfolding mark more read_name ends_name
read_name-mark true xs = refl
read_name-mark false [] = refl
read_name-mark false (y ∷ xs) = refl

-- What stands behind the last name holds no other.
pub names_wanted-end :
    (q : Bool) (fuel : ℕ) (wanted : Bytes)
    → wanted ≢ []
    → names_wanted fuel (mark q ++ more []) wanted ≡ false
unfolding mark more names_wanted skip_between is_between read_name trim_spaces equal_ignoring_case
names_wanted-end true zero wanted h = refl
names_wanted-end false zero wanted h = refl
names_wanted-end false (suc fuel) wanted h = refl
names_wanted-end true (suc fuel) [] h = absurd (h refl)
names_wanted-end true (suc zero) (w ∷ wanted) h = refl
names_wanted-end true (suc (suc fuel)) (w ∷ wanted) h = refl

pub nonempty : (name : Bytes) → IsTypeName name → name ≢ []
unfolding IsTypeName LastPlain
nonempty [] h = absurd h.1
nonempty (c ∷ name) h = λ e. ground arith
