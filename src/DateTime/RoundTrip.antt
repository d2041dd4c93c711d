-- ===== src/DateTime/RoundTrip.antt =====
-- `Parse` of datetime.cpp after the printing in `GetString`.
use azure_sdk_for_cpp.Base.{
  ℕ, ◌+◌, ◌-◌, ◌*◌, ◌/◌, ◌%◌, ◌≤◌, ◌<◌, ◌≡◌, refl, ◌∙◌, ap, true, false, arith, ltb, leb, ◌&&◌,
  Bytes, codes, ok, ◌>>=◌, ◌++◌, le→leb,
}
use azure_sdk_for_cpp.DateTime.Calendar.{validate_day, ticks_in_second}
use azure_sdk_for_cpp.DateTime.Format.{
  fields, pad2, pad4, rfc3339, TimeFractionFormat, fraction, print_date_time, get_string,
  end_of_year_9999,
}
use azure_sdk_for_cpp.DateTime.Parse.{
  parse_date_3339, parse_time_3339, parse_fraction, parse_zone_3339, parse_rest_3339, parse_rfc3339,
  parse, days_since_1601, seconds_since_1601, apply_zone,
}
use azure_sdk_for_cpp.DateTime.Digits.{is_digit-digit, two_digits, double_digit, four_digit}
use azure_sdk_for_cpp.DateTime.Fractions.{kept, parse_fraction-fraction}
use azure_sdk_for_cpp.DateTime.Moments.{
  day-lt, Moment, IsMoment, IsLeapDayEnd, seconds_of, fields-seconds_of, fields-leap_day,
  leap_year-lt, seconds_of-le, days_since_1601-leap_day,
}

module _ (year month day : ℕ) (rest : Bytes) where
  parse_date_3339-print :
      1601 ≤ year
      → year ≤ 9999
      → month < 12
      → day < 32
      → validate_day day month year ≡ true
      → parse_date_3339
          (pad4 year ++ codes "-" ++ pad2 (month + 1) ++ codes "-" ++ pad2 day ++ rest)
        ≡ ok (year, month, day, rest)
  unfolding parse_date_3339
  parse_date_3339-print hy hy' hm hd v =
      let range : (leb 1 (month + 1) && leb (month + 1) 12) ≡ true = ground arith in
      let before : month + 1 - 1 ≡ month = omega arith in
      rw
        (
          is_digit-digit 9 (year / 1000) (omega arith),
          is_digit-digit 9 (year / 100) (omega arith),
          is_digit-digit 9 (year / 10) (omega arith),
          is_digit-digit 9 year (omega arith),
          four_digit year (omega arith),
          le→leb 1601 year hy,
          two_digits 1 (month + 1) (omega arith),
          double_digit (month + 1) (omega arith),
          range,
          two_digits 3 day (omega arith),
          double_digit day (omega arith),
          before,
          v,
        )
        refl

module _ (hour minute second : ℕ) (rest : Bytes) where
  parse_time_3339-print :
      hour < 24
      → minute < 60
      → second ≤ 60
      → parse_time_3339 (pad2 hour ++ codes ":" ++ pad2 minute ++ codes ":" ++ pad2 second ++ rest)
        ≡ ok (hour, minute, second, rest)
  unfolding parse_time_3339
  parse_time_3339-print hh hm hs =
      rw
        (
          two_digits 2 hour (omega arith),
          double_digit hour (omega arith),
          le→leb hour 23 (omega arith),
          two_digits 5 minute (omega arith),
          double_digit minute (omega arith),
          two_digits 6 second (omega arith),
          double_digit second (omega arith),
          le→leb second 60 hs,
        )
        refl

-- A printed date and time, with a fraction and a Z, is read as the ticks that it stands for.
module _ (year month day hour minute second frac : ℕ) (tail : Bytes) where
  pub parse_rfc3339-print :
      1601 ≤ year
      → year ≤ 9999
      → month < 12
      → day < 32
      → validate_day day month year ≡ true
      → hour < 24
      → minute < 60
      → second ≤ 60
      → parse_fraction tail ≡ (frac, codes "Z")
      → parse rfc3339 (print_date_time year (month + 1) day hour minute second ++ tail)
        ≡ ok (
            seconds_since_1601 (days_since_1601 year month day) hour minute second * ticks_in_second
            + frac)
  unfolding parse parse_rfc3339 parse_rest_3339 print_date_time parse_zone_3339 apply_zone
  parse_rfc3339-print hy hy' hm hd v hh hmi hs f =
      rw
        (
          parse_date_3339-print year month day _ hy hy' hm hd v,
          parse_time_3339-print hour minute second tail hh hmi hs,
          f,
        )
        refl

abbrev pub ticks_of : Moment → ℕ → ℕ
ticks_of m frac = seconds_of m * ticks_in_second + frac

module _ (m : Moment) (v : IsMoment m) (frac : ℕ) (f : frac < ticks_in_second) where
  -- `GetString` in terms of the printed fields.
  get_string_parts :
      (format : TimeFractionFormat)
      → get_string rfc3339 format (ticks_of m frac)
        ≡ ok (
            let g = fields (seconds_of m) in
            print_date_time g.year (g.month + 1) g.month_day g.hour g.minute g.leftover
            ++ (fraction format frac ++ codes "Z"))
  unfolding get_string
  get_string_parts format =
      let late : ltb end_of_year_9999 (ticks_of m frac) ≡ false =
        let le = seconds_of-le m v in ground arith in
      let s : ticks_of m frac / ticks_in_second ≡ seconds_of m = omega arith in
      let r : ticks_of m frac % ticks_in_second ≡ frac = omega arith in rw (late, s, r) refl

  -- In each of the fraction formats, a moment that is not on the last day of a leap year, printed
  -- as RFC 3339 and parsed again, is the same but for a fraction of a second that `truncate` drops.
  pub parse-get_string :
      (format : TimeFractionFormat)
      → ¬ IsLeapDayEnd m
      → (get_string rfc3339 format (ticks_of m frac) >>= parse rfc3339)
        ≡ ok (ticks_of m (kept format frac))
  parse-get_string format h =
      rw (get_string_parts format, fields-seconds_of m v h)
        (parse_rfc3339-print m.year m.month m.day m.hour m.minute m.second (kept format frac)
          (fraction format frac ++ codes "Z") v.from_1601 v.to_9999 v.month_lt (day-lt m v)
          v.day_valid v.hour_lt v.minute_lt (omega arith) (parse_fraction-fraction format frac f))

  -- A moment on the last day of a leap year, printed and parsed again, is one day later.
  pub parse-get_string_leap_day :
      (format : TimeFractionFormat)
      → IsLeapDayEnd m
      → (get_string rfc3339 format (ticks_of m frac) >>= parse rfc3339)
        ≡ ok (ticks_of m (kept format frac) + 86400 * ticks_in_second)
  unfolding seconds_since_1601 validate_day
  parse-get_string_leap_day format h =
      rw (get_string_parts format, fields-leap_day m v h)
        (parse_rfc3339-print (m.year + 1) 0 1 m.hour m.minute m.second (kept format frac)
            (fraction format frac ++ codes "Z") (omega arith) (omega (arith, leap_year-lt m v h))
            (omega arith) (omega arith) refl v.hour_lt v.minute_lt (omega arith)
            (parse_fraction-fraction format frac f)
          ∙ ap ok (rw (days_since_1601-leap_day m v h) (omega arith)))
