-- ===== src/Connect/Info/Functions.antt =====
-- The three answers of SQLGetFunctions in src/connect.c against each other.
use frostlake_odbc.Base.{
  ℕ, ◌/◌, ◌%◌, ◌≡◌, ◌≢◌, ◌<◌, refl, arith, Bool, true, false, ◌&&◌, some, List, [], ◌∷◌, ◌==◌, ltb,
  if◌then◌else◌, Bytes, codes, All, ap, ◌∙◌,
}
use frostlake_odbc.Connect.Info.{
  Header, supported, bitmap, numbers, one, set_bit, then_set, set_bits, set_numbers, is_supported,
  as_bitmap, get_functions,
}

==-same : (n : ℕ) → (n == n) ≡ true
==-same n = ground arith

==-differ : (m n : ℕ) → m ≢ n → (m == n) ≡ false
==-differ m n h = ground arith

set_bit-read :
    (id : ℕ) (words : ℕ → ℕ → Bool)
    → id < 4000
    → (more : ℕ → ℕ → Bool) × (set_bit id words ≡ some more)
      × ((j : ℕ) → more (j / 16) (j % 16) ≡ (if id == j then true else words (j / 16) (j % 16)))
unfolding set_bit
set_bit-read id words h = (
  (λ word bit. if word == id / 16 && bit == id % 16 then true else words word bit),
  ground arith,
  λ j. ground arith,
)

later_or :
    (a b c : Bool)
    → (if b then true else (if a then true else c)) ≡ (if (if a then true else b) then true else c)
later_or true true c = refl
later_or true false c = refl
later_or false true c = refl
later_or false false c = refl

-- What the loop leaves in the words.
set_bits-read :
    (header : Header) (names : List Bytes) (words : ℕ → ℕ → Bool)
    → All (λ name. header name < 4000) names
    → (more : ℕ → ℕ → Bool) × (set_bits header names words ≡ some more)
      × ((j : ℕ)
          → more (j / 16) (j % 16)
            ≡ (if is_supported header j names then true else words (j / 16) (j % 16)))
unfolding set_bits is_supported then_set
set_bits-read header [] words h = (words, refl, λ j. refl)
set_bits-read header (name ∷ names) words h =
    let (first, set, reads) = set_bit-read (header name) words h.0 in
    let (more, rest, later) = set_bits-read header names first h.1 in
    (
      more,
      ap (λ o. then_set o (set_bits header names)) set ∙ rest,
      λ j.
          later j
          ∙ ap (λ b. if is_supported header j names then true else b) (reads j)
          ∙ later_or (header name == j) (is_supported header j names) (words (j / 16) (j % 16)),
    )

set_numbers-read :
    (header : Header) (names : List Bytes) (array : ℕ → Bool) (j : ℕ)
    → j < 100
    → set_numbers header names array j ≡ (if is_supported header j names then true else array j)
unfolding set_numbers is_supported
set_numbers-read header [] array j h = refl
set_numbers-read header (name ∷ names) array j h =
    set_numbers-read header names _ j h
    ∙ ap (λ b. if is_supported header j names then true else b) (place (header name))
    ∙ later_or (header name == j) (is_supported header j names) (array j)
  where
    place :
        (id : ℕ)
        → (if ltb id 100 then (λ i. if i == id then true else array i) else array) j
          ≡ (if id == j then true else array j)
    place id = ground arith

abbrev pub all_functions_3 : Bytes
all_functions_3 = codes "SQL_API_ODBC3_ALL_FUNCTIONS"

abbrev pub all_functions_2 : Bytes
all_functions_2 = codes "SQL_API_ALL_FUNCTIONS"

-- Where the ODBC headers give the two names for all functions different numbers and every listed
-- function a number below 4000: the bitmap is written within its 250 words, and for every number
-- that is neither of those two, its bit in the bitmap, its place in the array of ODBC 2.x, when it
-- is below 100, and the answer for the number by itself are the same: whether a listed function
-- has that number.
pub get_functions-agree :
    (header : Header) (id : ℕ)
    → header all_functions_2 ≢ header all_functions_3
    → All (λ name. header name < 4000) supported
    → id ≢ header all_functions_3
    → id ≢ header all_functions_2
    → (words : ℕ → ℕ → Bool) × (array : ℕ → Bool) × (get_functions header (header all_functions_3)
        ≡ some (bitmap words))
      × (get_functions header (header all_functions_2) ≡ some (numbers array))
      × (get_functions header id ≡ some (one (is_supported header id supported)))
      × (words (id / 16) (id % 16) ≡ is_supported header id supported)
      × (id < 100 → array id ≡ is_supported header id supported)
get_functions-agree header id d h p q =
    let (words, set, reads) = set_bits-read header supported (λ word bit. false) h in
    (
      words,
      set_numbers header supported (λ i. false),
      first words set,
      second,
      third,
      reads id ∙ or_false (is_supported header id supported),
      λ l.
          set_numbers-read header supported (λ i. false) id l
          ∙ or_false (is_supported header id supported),
    )
  where
    or_false : (b : Bool) → (if b then true else false) ≡ b
    or_false true = refl
    or_false false = refl

    first :
        (words : ℕ → ℕ → Bool)
        → set_bits header supported (λ word bit. false) ≡ some words
        → get_functions header (header all_functions_3) ≡ some (bitmap words)
    first words set =
        unfold get_functions in
        rw (==-same (header all_functions_3), set) (unfold as_bitmap in refl)

    second :
        get_functions header (header all_functions_2)
        ≡ some (numbers (set_numbers header supported (λ i. false)))
    second = unfold get_functions in rw (==-differ _ _ d, ==-same (header all_functions_2)) refl

    third : get_functions header id ≡ some (one (is_supported header id supported))
    third = unfold get_functions in rw (==-differ _ _ p, ==-differ _ _ q) refl
