-- ===== src/Results/Temporal/RoundTrip.antt =====
-- The parsers of src/results.c on the dates and times that src/execute.c prints.
use frostlake_odbc.Base.{
  ℕ, zero, suc, ◌+◌, ◌-◌, ◌*◌, ◌^◌, ◌<◌, true, false, ◌≡◌, refl, ap, ◌∙◌, sym, some, [], ◌∷◌, ◌++◌,
  append_assoc, append-nil, ◌==◌, ltb, Bytes, arith, All, length, length-append, drop,
}
use frostlake_odbc.Base.Int.{pos}
use frostlake_odbc.Sql.Scanner.{is_digit}
use frostlake_odbc.Proto.Request.Decimal.{IsDigitChar}
use frostlake_odbc.Bind.Param.{padded, padded_year, date_text, time_text}
use frostlake_odbc.Results.Temporal.{
  scan_digits, scan_next, third_of, second_of, first_of, scan_three, to_u16, to_date, to_time, read,
  parse_date_part, parse_time, fraction_digits, parse_fraction, with_fraction, parse_time_part,
  on_date, parse_rest, from_date, parse_timestamp,
}
use frostlake_odbc.Results.Temporal.Scan.{
  scan_digits-padded, length-padded, padded-IsDigitChar, scan_int-padded,
}

scan_next-padded :
    (mark width n : ℕ) (rest : Bytes)
    → n < 10 ^ suc width
    → scan_next mark (suc width) (mark ∷ (padded (suc width) n ++ rest)) ≡ some (pos n, rest)
unfolding scan_next
scan_next-padded mark width n rest h = rw (same_mark mark) (scan_int-padded width n rest h)
  where
    same_mark : (m : ℕ) → (m == m) ≡ true
    same_mark m = ground arith

scan_three-padded :
    (width a b c mark : ℕ) (rest : Bytes)
    → a < 10 ^ suc width
    → b < 100
    → c < 100
    → scan_three
        (suc width)
        mark
        (padded (suc width) a ++ (mark ∷ (padded 2 b ++ (mark ∷ (padded 2 c ++ rest)))))
      ≡ some (pos a, pos b, pos c)
unfolding scan_three first_of second_of third_of
scan_three-padded width a b c mark rest h k l =
    ap (first_of mark) (scan_int-padded width a after_first h)
    ∙ ap (second_of mark (pos a)) (scan_next-padded mark 1 b after_second (omega (arith, k)))
    ∙ ap (third_of (pos a) (pos b)) (scan_next-padded mark 1 c rest (omega (arith, l)))
  where
    after_second : Bytes
    after_second = mark ∷ (padded 2 c ++ rest)

    after_first : Bytes
    after_first = mark ∷ (padded 2 b ++ after_second)

pub parse_date_part-date_text :
    (y m d : ℕ) (rest : Bytes)
    → y < 10000
    → m < 100
    → d < 100
    → parse_date_part (date_text (pos y) m d ++ rest)
      ≡ read (record { year = pos y; month = m; day = d })
unfolding parse_date_part date_text padded_year to_date to_u16
parse_date_part-date_text y m d rest h k l =
    ap (λ s. to_date (scan_three 4 b'-' s)) joined
    ∙ ap to_date (scan_three-padded 3 y m d b'-' rest (omega (arith, h)) k l)
  where
    joined :
        (padded 4 y ++ (b'-' ∷ (padded 2 m ++ (b'-' ∷ padded 2 d)))) ++ rest
        ≡ padded 4 y ++ (b'-' ∷ (padded 2 m ++ (b'-' ∷ (padded 2 d ++ rest))))
    joined = simp append_assoc

parse_time-time_text :
    (h m s : ℕ) (rest : Bytes)
    → h < 100
    → m < 100
    → s < 100
    → parse_time (time_text h m s ++ rest) ≡ read (record { hour = h; minute = m; second = s })
unfolding parse_time time_text to_time to_u16
parse_time-time_text h m s rest a b c =
    ap (λ t. to_time (scan_three 2 b':' t)) joined
    ∙ ap to_time (scan_three-padded 1 h m s b':' rest (omega (arith, a)) b c)
  where
    joined :
        (padded 2 h ++ (b':' ∷ (padded 2 m ++ (b':' ∷ padded 2 s)))) ++ rest
        ≡ padded 2 h ++ (b':' ∷ (padded 2 m ++ (b':' ∷ (padded 2 s ++ rest))))
    joined = simp append_assoc

drop-front : (xs rest : Bytes) (n : ℕ) → length xs ≡ n → drop n (xs ++ rest) ≡ rest
drop-front [] rest zero e = refl
drop-front [] rest (suc n) e = absurd (omega (arith, e))
drop-front (c ∷ xs) rest zero e = absurd (omega (arith, e))
drop-front (c ∷ xs) rest (suc n) e = drop-front xs rest n (omega (arith, e))

length-date_text : (y m d : ℕ) → y < 10000 → m < 100 → d < 100 → length (date_text (pos y) m d) ≡ 10
unfolding date_text padded_year
length-date_text y m d h k l = omega (
  arith,
  length-append (padded 4 y) (b'-' ∷ (padded 2 m ++ (b'-' ∷ padded 2 d))),
  length-append (padded 2 m) (b'-' ∷ padded 2 d),
  length-padded 3 y (omega (arith, h)),
  length-padded 1 m (omega (arith, k)),
  length-padded 1 d (omega (arith, l)),
)

length-time_text : (h m s : ℕ) → h < 100 → m < 100 → s < 100 → length (time_text h m s) ≡ 8
unfolding time_text
length-time_text h m s a b c = omega (
  arith,
  length-append (padded 2 h) (b':' ∷ (padded 2 m ++ (b':' ∷ padded 2 s))),
  length-append (padded 2 m) (b':' ∷ padded 2 s),
  length-padded 1 h (omega (arith, a)),
  length-padded 1 m (omega (arith, b)),
  length-padded 1 s (omega (arith, c)),
)

-- As many digits as are wanted.
fraction_digits-scan :
    (left value : ℕ) (s : Bytes)
    → All IsDigitChar s
    → length s ≡ left
    → fraction_digits left value s ≡ (scan_digits left value s).0
unfolding fraction_digits scan_digits is_digit
fraction_digits-scan zero value s h e = refl
fraction_digits-scan (suc left) value [] h e = absurd (omega (arith, e))
fraction_digits-scan (suc left) value (c ∷ s) h e =
    ground
      (arith, h.0, fraction_digits-scan left (value * 10 + (c - b'0')) s h.1 (omega (arith, e)))

parse_fraction-padded : (n : ℕ) → n < 1000000000 → parse_fraction (b'.' ∷ padded 9 n) ≡ n
unfolding parse_fraction
parse_fraction-padded n h =
    fraction_digits-scan 9 0 (padded 9 n) (padded-IsDigitChar 9 n)
      (length-padded 8 n (omega (arith, h)))
    ∙ ap (λ s. (scan_digits 9 0 s).0) (sym (append-nil (padded 9 n)))
    ∙ ap {A = ℕ × Bytes} (λ p. p.0) (scan_digits-padded 8 n [] (omega (arith, h)))

parse_time_part-printed :
    (h m s f : ℕ)
    → h < 100
    → m < 100
    → s < 100
    → f < 1000000000
    → parse_time_part (time_text h m s ++ (b'.' ∷ padded 9 f))
      ≡ read (record { hour = h; minute = m; second = s }, f)
unfolding parse_time_part with_fraction
parse_time_part-printed h m s f a b c d =
    ap (with_fraction text) (parse_time-time_text h m s (b'.' ∷ padded 9 f) a b c)
    ∙ rw
        (
          long_enough,
          drop-front (time_text h m s) (b'.' ∷ padded 9 f) 8 (length-time_text h m s a b c),
          parse_fraction-padded f d,
        )
        refl
  where
    text : Bytes
    text = time_text h m s ++ (b'.' ∷ padded 9 f)

    long_enough : ltb (length text) 8 ≡ false
    long_enough =
        ground
          (arith, length-time_text h m s a b c, length-append (time_text h m s) (b'.' ∷ padded 9 f))

-- The text that a bound timestamp is written as is read back as the same timestamp, for a year from
-- 0 to 9999, the other parts below 100 and a fraction below 1000000000.
pub parse_timestamp-date_text :
    (y mo d h m s f : ℕ)
    → y < 10000
    → mo < 100
    → d < 100
    → h < 100
    → m < 100
    → s < 100
    → f < 1000000000
    → parse_timestamp (date_text (pos y) mo d ++ (b'T' ∷ (time_text h m s ++ (b'.' ∷ padded 9 f))))
      ≡ read (record {
        date = record { year = pos y; month = mo; day = d };
        time = record { hour = h; minute = m; second = s };
        fraction = f;
      })
unfolding parse_timestamp from_date parse_rest on_date
parse_timestamp-date_text y mo d h m s f a b c i j k l =
    ap (from_date text) (parse_date_part-date_text y mo d after a b c)
    ∙ rw
        (
          long_enough,
          drop-front (date_text (pos y) mo d) after 10 (length-date_text y mo d a b c),
          parse_time_part-printed h m s f i j k l,
        )
        refl
  where
    after : Bytes
    after = b'T' ∷ (time_text h m s ++ (b'.' ∷ padded 9 f))

    text : Bytes
    text = date_text (pos y) mo d ++ after

    long_enough : ltb (length text) 10 ≡ false
    long_enough =
        ground (arith, length-date_text y mo d a b c, length-append (date_text (pos y) mo d) after)
