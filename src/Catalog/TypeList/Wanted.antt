-- ===== src/Catalog/TypeList/Wanted.antt =====
-- The search of `type_list_contains` of src/catalog.c through a list that was written out.
use frostlake_odbc.Base.{
  ℕ, zero, suc, ◌≤◌, ◌≡◌, ◌≢◌, refl, ap, ◌∙◌, arith, Bool, true, false, some, List, [], ◌∷◌, ◌++◌,
  append-nil, if◌then◌else◌, Bytes, length, length-append, subst, All,
}
use frostlake_odbc.Response.Types.{equal_ignoring_case}
use frostlake_odbc.Catalog.Query.{is_empty_or_all}
use frostlake_odbc.Catalog.TypeList.{
  is_between, skip_between, names_wanted, list_wanted, type_list_contains,
}
use frostlake_odbc.Catalog.TypeList.Printed.{
  print_types, IsTypeName, names_one, nonempty, mark, more, print_types-split, mark-between,
  read_name-mark, names_wanted-end, round, skip_between-lead, skip_between-name, trim_spaces-plain,
  read_name-plain,
}

length-print_types :
    (lead : Bytes) (x : Bool × Bytes) (xs : List (Bool × Bytes))
    → x.1 ≢ []
    → suc (length (mark x.0 ++ more xs)) ≤ length (lead ++ print_types (x ∷ xs))
length-print_types lead x xs n = rw (print_types-split x xs) (
    omega (
      arith,
      length-append lead (mark x.0 ++ (x.1 ++ (mark x.0 ++ more xs))),
      length-append (mark x.0) (x.1 ++ (mark x.0 ++ more xs)),
      length-append x.1 (mark x.0 ++ more xs),
      some_length x.1 n,
    ))
  where
    some_length : (s : Bytes) → s ≢ [] → 1 ≤ length s
    some_length [] h = absurd (h refl)
    some_length (c ∷ s) h = omega arith

first_round :
    (x : Bool × Bytes) (xs : List (Bool × Bytes)) (lead : Bytes) (fuel : ℕ) (wanted : Bytes)
    → All (λ c. is_between c ≡ true) lead
    → IsTypeName x.1
    → names_wanted (suc fuel) (lead ++ print_types (x ∷ xs)) wanted ≡ (
        if equal_ignoring_case wanted x.1
        then true
        else names_wanted fuel (mark x.0 ++ more xs) wanted)
first_round x xs lead fuel wanted b h =
    round fuel (lead ++ print_types (x ∷ xs)) x.1 (mark x.0 ++ more xs) wanted (nonempty x.1 h)
      (skip_between-lead lead _ b
        ∙ ap skip_between (print_types-split x xs)
        ∙ skip_between-lead (mark x.0) (x.1 ++ (mark x.0 ++ more xs)) marked
        ∙ skip_between-name x.1 (mark x.0 ++ more xs) h)
      (read_name-plain x.1 (mark x.0 ++ more xs) (unfold IsTypeName in h.2) (read_name-mark x.0 xs))
      (trim_spaces-plain x.1 (unfold IsTypeName in h.1))
  where
    marked : All (λ c. is_between c ≡ true) (mark x.0)
    marked = subst (All (λ c. is_between c ≡ true)) (append-nil (mark x.0)) (mark-between x.0 [] tt)

regroup_mark :
    (q : Bool) (y : Bool × Bytes) (xs : List (Bool × Bytes))
    → mark q ++ more (y ∷ xs) ≡ (mark q ++ (b',' ∷ [])) ++ print_types (y ∷ xs)
unfolding mark more
regroup_mark true y xs = refl
regroup_mark false y xs = refl

comma : All (λ c. is_between c ≡ true) (b',' ∷ [])
unfolding is_between
comma = (refl, tt)

names_wanted-print_types :
    (x : Bool × Bytes) (xs : List (Bool × Bytes)) (lead : Bytes) (fuel : ℕ) (wanted : Bytes)
    → wanted ≢ []
    → All (λ c. is_between c ≡ true) lead
    → IsTypeName x.1
    → All (λ y. IsTypeName y.1) xs
    → length (lead ++ print_types (x ∷ xs)) ≤ fuel
    → names_wanted fuel (lead ++ print_types (x ∷ xs)) wanted ≡ names_one wanted (x ∷ xs)
unfolding names_one
names_wanted-print_types x xs lead zero wanted w b h hs l =
    absurd (omega (arith, l, length-print_types lead x xs (nonempty x.1 h)))
names_wanted-print_types x [] lead (suc fuel) wanted w b h hs l =
    first_round x [] lead fuel wanted b h
    ∙ ap (λ later. if equal_ignoring_case wanted x.1 then true else later)
        (names_wanted-end x.0 fuel wanted w)
names_wanted-print_types x (y ∷ xs) lead (suc fuel) wanted w b h hs l =
    first_round x (y ∷ xs) lead fuel wanted b h
    ∙ ap (λ later. if equal_ignoring_case wanted x.1 then true else later)
        (ap (λ s. names_wanted fuel s wanted) (regroup_mark x.0 y xs)
          ∙ names_wanted-print_types y xs (mark x.0 ++ (b',' ∷ [])) fuel wanted w
              (mark-between x.0 (b',' ∷ []) comma) hs.0 hs.1
              (omega (
                arith,
                ap length (regroup_mark x.0 y xs),
                length-print_types lead x (y ∷ xs) (nonempty x.1 h),
              )))

-- On a list of names, separated by commas and each in quotes or not, that is neither empty nor
-- "%" as a whole, where no name is empty, begins or ends with a blank or holds a comma or a quote,
-- a type that is not empty is found exactly when it is one of the names, capitals aside.
pub type_list_contains-print_types :
    (x : Bool × Bytes) (xs : List (Bool × Bytes)) (wanted : Bytes)
    → wanted ≢ []
    → IsTypeName x.1
    → All (λ y. IsTypeName y.1) xs
    → is_empty_or_all (some (print_types (x ∷ xs))) ≡ false
    → type_list_contains (some (print_types (x ∷ xs))) wanted ≡ names_one wanted (x ∷ xs)
unfolding type_list_contains list_wanted
type_list_contains-print_types x xs wanted w h hs e =
    rw e (names_wanted-print_types x xs [] _ wanted w tt h hs (omega arith))
