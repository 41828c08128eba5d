-- ===== src/Json/Printer/RoundTrip.antt =====
-- The reader of src/json.c on the compact text of a tree.
use frostlake_odbc.Base.{
  ℕ, zero, suc, ◌+◌, ◌≤◌, ◌≡◌, refl, ◌∙◌, ap, some, none, [], ◌∷◌, ◌++◌, append_assoc, append-nil,
  arith, Bytes, length, length-append, strip_prefix, if◌then◌else◌,
}
use frostlake_odbc.Json.Text.{Parsed, ok, bad}
use frostlake_odbc.Json.Value.{
  Json, Items, Fields, null, bool, number, string, array, object, nil, cons, end, field,
}
use frostlake_odbc.Json.Reader.{
  max_depth, is_ws, skip_ws, is_number_char, after_member, array_loop, parse_array, parse_key,
  object_loop, parse_object, parse_value, parse_document, parse, at_end,
}
use frostlake_odbc.Json.Reader.Depth.{depth, depth_items, depth_fields}
use frostlake_odbc.Json.Printer.Scalars.{
  HasLexemes, HasLexemesItems, HasLexemesFields, Ends, print-first, bind-ok, parse_value-number,
  parse_value-null, parse_value-bool, parse_value-array, parse_array-nil, parse_value-object,
  parse_object-end, Ends-closers, print-text, parse_key-quote,
}
use frostlake_odbc.Json.Printer.{quote, print, print_items, print_fields}

module _ (value : Bytes → Parsed Json) (fuel : ℕ) where
  array_loop-last :
      (s rest : Bytes) (v : Json)
      → value s ≡ ok v (b']' ∷ rest)
      → array_loop value (suc fuel) s ≡ ok (cons v nil) rest
  unfolding array_loop after_member skip_ws is_ws
  array_loop-last s rest v e = bind-ok _ e

  array_loop-more :
      (s t rest : Bytes) (v : Json) (vs : Items)
      → value s ≡ ok v (b',' ∷ t)
      → array_loop value fuel t ≡ ok vs rest
      → array_loop value (suc fuel) s ≡ ok (cons v vs) rest
  unfolding array_loop after_member skip_ws is_ws
  array_loop-more s t rest v vs e h = bind-ok _ e ∙ bind-ok _ h

  object_loop-last :
      (s t rest : Bytes) (k : Bytes) (v : Json)
      → parse_key s ≡ ok k t
      → value t ≡ ok v (b'}' ∷ rest)
      → object_loop value (suc fuel) s ≡ ok (field k v end) rest
  unfolding object_loop after_member skip_ws is_ws
  object_loop-last s t rest k v q e = bind-ok _ q ∙ bind-ok _ e

  object_loop-more :
      (s t u rest : Bytes) (k : Bytes) (v : Json) (fs : Fields)
      → parse_key s ≡ ok k t
      → value t ≡ ok v (b',' ∷ u)
      → object_loop value fuel u ≡ ok fs rest
      → object_loop value (suc fuel) s ≡ ok (field k v fs) rest
  unfolding object_loop after_member skip_ws is_ws
  object_loop-more s t u rest k v fs q e h = bind-ok _ q ∙ bind-ok _ e ∙ bind-ok _ h

  parse_array-loop :
      (s rest : Bytes) (vs : Items)
      → skip_ws s ≡ s
      → strip_prefix (b']' ∷ []) s ≡ none
      → array_loop value fuel s ≡ ok vs rest
      → parse_array value fuel s ≡ ok (array vs) rest
  unfolding parse_array
  parse_array-loop s rest vs w n h =
      rw (w, n, parse_array) (bind-ok _ (ap (array_loop value fuel) w ∙ h))

  parse_object-loop :
      (k s rest : Bytes) (fs : Fields)
      → object_loop value fuel (quote k ++ s) ≡ ok fs rest
      → parse_object value fuel (quote k ++ s) ≡ ok (object fs) rest
  unfolding parse_object skip_ws is_ws strip_prefix
  parse_object-loop k s rest fs h = bind-ok _ h

-- At every position, with any text behind it that does not carry on a number.
abbrev Reads : ℕ → ℕ → Json → Type 0
Reads room fuel v = (rest : Bytes) → Ends rest → parse_value room fuel (print v ++ rest) ≡ ok v rest

length-member :
    (k : Bytes) (v : Json) (fs : Fields)
    → length (quote k ++ (b':' ∷ (print v ++ print_fields fs)))
      ≡ length (quote k) + suc (length (print v) + length (print_fields fs))
length-member k v fs = omega (
  arith,
  length-append (quote k) (b':' ∷ (print v ++ print_fields fs)),
  length-append (print v) (print_fields fs),
)

append-member :
    (k : Bytes) (v : Json) (fs : Fields) (rest : Bytes)
    → (quote k ++ (b':' ∷ (print v ++ print_fields fs))) ++ rest
      ≡ quote k ++ (b':' ∷ (print v ++ (print_fields fs ++ rest)))
append-member k v fs rest =
    append_assoc (quote k) (b':' ∷ (print v ++ print_fields fs)) rest
    ∙ ap (λ t. quote k ++ (b':' ∷ t)) (append_assoc (print v) (print_fields fs) rest)

mutual
  unfolding print depth

  Reads-print :
      (v : Json) (room fuel : ℕ)
      → HasLexemes v
      → depth v ≤ room
      → length (print v) ≤ fuel
      → Reads room fuel v
  Reads-print null room fuel w d l rest e = parse_value-null room fuel rest
  Reads-print (bool b) room fuel w d l rest e = parse_value-bool b room fuel rest
  Reads-print (number lexeme) room fuel w d l rest e = parse_value-number room fuel lexeme rest w e
  Reads-print (string text) room fuel w d l rest e = print-text text rest room fuel
  Reads-print (array nil) zero fuel w d l rest e = absurd (omega arith)
  Reads-print (array nil) (suc room) fuel w d l rest e =
      parse_value-array _ _ _ ∙ parse_array-nil _ _ _
  Reads-print (array (cons v vs)) zero fuel w d l rest e = absurd (omega arith)
  Reads-print (array (cons v vs)) (suc room) fuel w d l rest e = rw append_assoc (
      let first = print-first v (print_items vs ++ rest) w.0 in
      let read =
        parse_array-loop (parse_value room fuel) fuel (print v ++ (print_items vs ++ rest)) rest
          (cons v vs) first.0 first.1
          (Reads-items vs v room fuel fuel rest
            (λ s f.
              Reads-print v room fuel w.0 (omega arith)
                (omega (arith, length-append (print v) (print_items vs))) s f)
            w.1 (omega arith) (omega (arith, length-append (print v) (print_items vs)))
            (omega (arith, length-append (print v) (print_items vs)))) in
      parse_value-array room fuel _ ∙ read)
  Reads-print (object end) zero fuel w d l rest e = absurd (omega arith)
  Reads-print (object end) (suc room) fuel w d l rest e =
      parse_value-object _ _ _ ∙ parse_object-end _ _ _
  Reads-print (object (field k v fs)) zero fuel w d l rest e = absurd (omega arith)
  Reads-print (object (field k v fs)) (suc room) fuel w d l rest e =
      let total = length-member k v fs in
      rw
        (
          append_assoc (quote k) (b':' ∷ (print v ++ print_fields fs)) rest,
          append_assoc (print v) (print_fields fs) rest,
        )
        (let read =
            parse_object-loop (parse_value room fuel) fuel k
              (b':' ∷ (print v ++ (print_fields fs ++ rest))) rest (field k v fs)
              (Reads-fields fs k v room fuel fuel rest
                (λ s f. Reads-print v room fuel w.0 (omega arith) (omega arith) s f) w.1
                (omega arith) (omega arith) (omega arith)) in
          parse_value-object room fuel _ ∙ read)

  Reads-items :
      (vs : Items) (v : Json) (room n fuel : ℕ) (rest : Bytes)
      → Reads room n v
      → HasLexemesItems vs
      → depth_items vs ≤ room
      → length (print_items vs) ≤ fuel
      → length (print_items vs) ≤ n
      → array_loop (parse_value room n) fuel (print v ++ (print_items vs ++ rest))
        ≡ ok (cons v vs) rest
  Reads-items nil v room n zero rest r w d l k = absurd (omega arith)
  Reads-items nil v room n (suc fuel) rest r w d l k =
      array_loop-last (parse_value room n) fuel _ rest v (r (b']' ∷ rest) Ends-closers.0)
  Reads-items (cons u us) v room n zero rest r w d l k = absurd (omega arith)
  Reads-items (cons u us) v room n (suc fuel) rest r w d l k =
      array_loop-more (parse_value room n) fuel _ (print u ++ (print_items us ++ rest)) rest v
        (cons u us)
        (r _ Ends-closers.2
          ∙ ap (λ t. ok v (b',' ∷ t)) (append_assoc (print u) (print_items us) rest))
        (Reads-items us u room n fuel rest
          (λ s f.
            Reads-print u room n w.0 (omega arith)
              (omega (arith, length-append (print u) (print_items us))) s f)
          w.1 (omega arith) (omega (arith, length-append (print u) (print_items us)))
          (omega (arith, length-append (print u) (print_items us))))

  Reads-fields :
      (fs : Fields) (key : Bytes) (v : Json) (room n fuel : ℕ) (rest : Bytes)
      → Reads room n v
      → HasLexemesFields fs
      → depth_fields fs ≤ room
      → length (print_fields fs) ≤ fuel
      → length (print_fields fs) ≤ n
      → object_loop
          (parse_value room n)
          fuel
          (quote key ++ (b':' ∷ (print v ++ (print_fields fs ++ rest))))
        ≡ ok (field key v fs) rest
  Reads-fields end key v room n zero rest r w d l k = absurd (omega arith)
  Reads-fields end key v room n (suc fuel) rest r w d l k =
      object_loop-last (parse_value room n) fuel _ _ rest key v (parse_key-quote key _)
        (r (b'}' ∷ rest) Ends-closers.1)
  Reads-fields (field k' u us) key v room n zero rest r w d l k = absurd (omega arith)
  Reads-fields (field k' u us) key v room n (suc fuel) rest r w d l k =
      let total = length-member k' u us in
      object_loop-more (parse_value room n) fuel _ _
        (quote k' ++ (b':' ∷ (print u ++ (print_fields us ++ rest)))) rest key v (field k' u us)
        (parse_key-quote key _)
        (r _ Ends-closers.2 ∙ ap (λ t. ok v (b',' ∷ t)) (append-member k' u us rest))
        (Reads-fields us k' u room n fuel rest
          (λ s f. Reads-print u room n w.0 (omega arith) (omega arith) s f) w.1 (omega arith)
          (omega arith) (omega arith))

-- The reader gives back every tree from its compact text: the tree's numbers have number texts,
-- and it nests at most FL_JSON_MAX_DEPTH brackets. Strings and keys are any bytes.
pub parse-print : (v : Json) → HasLexemes v → depth v ≤ max_depth → parse (print v) ≡ some v
parse-print v w d =
    let read : parse_value max_depth (suc (length (print v))) (print v) ≡ ok v [] =
      rw append-nil at (
        Reads-print v max_depth (suc (length (print v))) w d (omega arith) []
          (unfold is_number_char in refl)) in
    let document : parse_document (print v) ≡ ok v [] =
      unfold parse_document at_end skip_ws in
      bind-ok (λ root r. if at_end (skip_ws r) then ok root [] else bad) read in
    unfold parse in rw (document, parse)
