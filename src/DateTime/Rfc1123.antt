-- ===== src/DateTime/Rfc1123.antt =====
-- `Parse` of datetime.cpp after `GetString`, in the format of RFC 1123.
use azure_sdk_for_cpp.Base.{
  ℕ, zero, suc, ◌+◌, ◌*◌, ◌/◌, ◌%◌, ◌≤◌, ◌<◌, ◌≡◌, refl, true, false, arith, get_or, ltb, ◌==◌,
  ◌||◌, Bytes, codes, ok, ◌>>=◌, ◌++◌, [], le→leb,
}
use azure_sdk_for_cpp.DateTime.Calendar.{validate_day, ticks_in_second}
use azure_sdk_for_cpp.DateTime.Format.{
  fields, pad2, pad4, day_names, month_names, rfc1123, TimeFractionFormat, print_rfc1123,
  get_string, end_of_year_9999,
}
use azure_sdk_for_cpp.DateTime.Parse.{
  find_weekday, parse_day_1123, parse_month_1123, parse_year_1123, parse_second_1123,
  parse_time_1123, parse_zone_1123, parse_rfc1123, parse, apply_zone,
}
use azure_sdk_for_cpp.DateTime.Moments.{
  day-lt, Moment, IsMoment, IsLeapDayEnd, seconds_of, days_of, fields_of, fields-seconds_of,
  seconds_of-le,
}
use azure_sdk_for_cpp.DateTime.Digits.{is_digit-digit, two_digits, double_digit, four_digit}
use azure_sdk_for_cpp.DateTime.RoundTrip.{ticks_of}

-- A printed day name, and a printed month name, is found under its number.
find_weekday-name :
    (w : ℕ) (rest : Bytes)
    → w < 7
    → find_weekday day_names 0 (get_or day_names w [] ++ (codes ", " ++ rest)) ≡ (w, rest)
unfolding find_weekday
find_weekday-name zero rest h = refl
find_weekday-name (suc zero) rest h = refl
find_weekday-name (suc (suc zero)) rest h = refl
find_weekday-name (suc (suc (suc zero))) rest h = refl
find_weekday-name (suc (suc (suc (suc zero)))) rest h = refl
find_weekday-name (suc (suc (suc (suc (suc zero))))) rest h = refl
find_weekday-name (suc (suc (suc (suc (suc (suc zero)))))) rest h = refl
find_weekday-name (suc (suc (suc (suc (suc (suc (suc w))))))) rest h = absurd (omega arith)

parse_month_1123-name :
    (m : ℕ) (rest : Bytes)
    → m < 12
    → parse_month_1123 (get_or month_names m [] ++ (codes " " ++ rest)) ≡ ok (m, rest)
unfolding parse_month_1123
parse_month_1123-name zero rest h = refl
parse_month_1123-name (suc zero) rest h = refl
parse_month_1123-name (suc (suc zero)) rest h = refl
parse_month_1123-name (suc (suc (suc zero))) rest h = refl
parse_month_1123-name (suc (suc (suc (suc zero)))) rest h = refl
parse_month_1123-name (suc (suc (suc (suc (suc zero))))) rest h = refl
parse_month_1123-name (suc (suc (suc (suc (suc (suc zero)))))) rest h = refl
parse_month_1123-name (suc (suc (suc (suc (suc (suc (suc zero))))))) rest h = refl
parse_month_1123-name (suc (suc (suc (suc (suc (suc (suc (suc zero)))))))) rest h = refl
parse_month_1123-name (suc (suc (suc (suc (suc (suc (suc (suc (suc zero))))))))) rest h = refl
parse_month_1123-name (suc (suc (suc (suc (suc (suc (suc (suc (suc (suc zero)))))))))) rest h = refl
parse_month_1123-name (suc (suc (suc (suc (suc (suc (suc (suc (suc (suc (suc zero))))))))))) rest
      h =
    refl
parse_month_1123-name (suc (suc (suc (suc (suc (suc (suc (suc (suc (suc (suc (suc m)))))))))))) rest
      h =
    absurd (omega arith)

parse_day_1123-print :
    (day : ℕ) (rest : Bytes)
    → day < 40
    → parse_day_1123 (pad2 day ++ (codes " " ++ rest)) ≡ ok (day, rest)
unfolding parse_day_1123
parse_day_1123-print day rest h =
    rw (two_digits 3 day (omega arith), double_digit day (omega arith)) refl

parse_year_1123-print :
    (year : ℕ) (rest : Bytes)
    → 1601 ≤ year
    → year ≤ 9999
    → parse_year_1123 (pad4 year ++ (codes " " ++ rest)) ≡ ok (year, rest)
unfolding parse_year_1123
parse_year_1123-print year rest h h' =
    let early : ltb year 1601 ≡ false = ground arith in
    rw
      (
        is_digit-digit 9 (year / 1000) (omega arith),
        is_digit-digit 9 (year / 100) (omega arith),
        is_digit-digit 9 (year / 10) (omega arith),
        is_digit-digit 9 year (omega arith),
        four_digit year (omega arith),
        early,
      )
      refl

parse_time_1123-print :
    (hour minute second : ℕ) (rest : Bytes)
    → hour < 24
    → minute < 60
    → second < 60
    → parse_time_1123 (
        pad2 hour
        ++ (codes ":" ++ (pad2 minute ++ (codes ":" ++ (pad2 second ++ (codes " " ++ rest))))))
      ≡ ok (hour, minute, second, rest)
unfolding parse_time_1123 parse_second_1123
parse_time_1123-print hour minute second rest hh hm hs =
    rw
      (
        two_digits 2 hour (omega arith),
        two_digits 5 minute (omega arith),
        two_digits 6 second (omega arith),
        double_digit hour (omega arith),
        double_digit minute (omega arith),
        double_digit second (omega arith),
        le→leb hour 23 (omega arith),
        le→leb second 60 (omega arith),
      )
      refl

right_weekday : (w : ℕ) → (w == 7 || w == w) ≡ true
right_weekday w = ground arith

day-nonzero : (m : Moment) → IsMoment m → (m.day == 0) ≡ false
unfolding validate_day
day-nonzero m v = let d = v.day_valid in ground arith

module _ (m : Moment) (v : IsMoment m) where
  parse_rfc1123-print :
      parse rfc1123 (print_rfc1123 (fields_of m)) ≡ ok (seconds_of m * ticks_in_second)
  unfolding parse parse_rfc1123 print_rfc1123 parse_zone_1123 apply_zone
  parse_rfc1123-print =
      let w : (days_of m + 1) % 7 < 7 = omega arith in
      let nonzero : (m.day == 0) ≡ false = day-nonzero m v in
      rw
        (
          find_weekday-name _ _ w,
          parse_day_1123-print m.day _ (omega (arith, day-lt m v)),
          nonzero,
          parse_month_1123-name m.month _ v.month_lt,
          parse_year_1123-print m.year _ v.from_1601 v.to_9999,
          v.day_valid,
          parse_time_1123-print m.hour m.minute m.second (codes "GMT") v.hour_lt v.minute_lt
              v.second_lt,
          right_weekday ((days_of m + 1) % 7),
        )
        refl

  get_string_rfc1123 :
      (f : TimeFractionFormat) (frac : ℕ)
      → frac < ticks_in_second
      → get_string rfc1123 f (ticks_of m frac) ≡ ok (print_rfc1123 (fields (seconds_of m)))
  unfolding get_string
  get_string_rfc1123 f frac h =
      let late : ltb end_of_year_9999 (ticks_of m frac) ≡ false =
        let le = seconds_of-le m v in ground arith in
      let s : ticks_of m frac / ticks_in_second ≡ seconds_of m = omega arith in rw (late, s) refl

  -- A moment that is not on the last day of a leap year, printed as RFC 1123 and parsed again,
  -- loses its fraction of a second and nothing else.
  pub parse-get_string_rfc1123 :
      (f : TimeFractionFormat) (frac : ℕ)
      → frac < ticks_in_second
      → ¬ IsLeapDayEnd m
      → (get_string rfc1123 f (ticks_of m frac) >>= parse rfc1123)
        ≡ ok (seconds_of m * ticks_in_second)
  parse-get_string_rfc1123 f frac h e =
      rw (get_string_rfc1123 f frac h, fields-seconds_of m v e) parse_rfc1123-print
