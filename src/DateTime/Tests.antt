-- ===== src/DateTime/Tests.antt =====
-- Runs of `DateTime` on dates of its unit tests, and the theorems at concrete moments.
use azure_sdk_for_cpp.Base.{◌+◌, ◌*◌, ◌≡◌, refl, arith, codes, ok, err, ◌>>=◌, ◌↔◌}
use azure_sdk_for_cpp.DateTime.Calendar.{
  compute_year, is_leap_year, find_month, validate_day, get_year_day, count_leap_years,
  adjust_timezone, ticks_in_second,
}
use azure_sdk_for_cpp.DateTime.Format.{
  rfc1123, rfc3339, all_digits, drop_trailing_zeros, truncate, year_less_than_1601, before_1601,
  bad_weekday, bad_day_of_month, fields, fraction, print_rfc1123, print_date_time, get_string,
}
use azure_sdk_for_cpp.DateTime.Parse.{
  string_starts_with, is_digit, days_since_1601, seconds_since_1601, find_weekday, find_month_name,
  parse_day_1123, parse_month_1123, parse_year_1123, parse_time_1123, parse_zone_1123, apply_zone,
  parse_rfc1123, parse_date_3339, parse_time_3339, skip_digits, fraction_loop, parse_fraction,
  parse_zone_3339, parse_rest_3339, parse_rfc3339, parse, date_time,
}
use azure_sdk_for_cpp.DateTime.Moments.{Moment, IsMoment, IsLeapDayEnd, seconds_of}
use azure_sdk_for_cpp.DateTime.RoundTrip.{ticks_of, parse-get_string, parse-get_string_leap_day}
use azure_sdk_for_cpp.DateTime.Rfc1123.{parse-get_string_rfc1123}
use azure_sdk_for_cpp.DateTime.Construct.{IsDateTime, gregorian_ticks, date_time-IsDateTime}

methods : Unit {0}
unfolding compute_year is_leap_year find_month validate_day get_year_day count_leap_years
    adjust_timezone fields fraction print_rfc1123 print_date_time get_string string_starts_with
    is_digit days_since_1601 seconds_since_1601 find_weekday find_month_name parse_day_1123
    parse_month_1123 parse_year_1123 parse_time_1123 parse_zone_1123 apply_zone parse_rfc1123
    parse_date_3339 parse_time_3339 skip_digits fraction_loop parse_fraction parse_zone_3339
    parse_rest_3339 parse_rfc3339 parse date_time
methods = tt

runs :
    (parse rfc3339 (codes "2016-10-12T18:04:05.25+02:00") ≡ ok 131207618452500000)
    × (parse rfc3339 (codes "1600-12-31T00:00:00Z") ≡ err year_less_than_1601)
    × (parse rfc3339 (codes "2019-02-29") ≡ err bad_day_of_month)
    × (parse rfc1123 (codes "Sun, 14 Feb 2016 12:53:20 EDT") ≡ ok 130999424000000000)
    × (parse rfc1123 (codes "Mon, 14 Feb 2016 12:53:20 GMT") ≡ err bad_weekday)
    × (parse rfc1123 (codes "01 Jan 1601 00:00:00 +0001") ≡ err before_1601)
    × (get_string rfc3339 drop_trailing_zeros 130999424001200000
        ≡ ok (codes "2016-02-14T16:53:20.12Z"))
    × (get_string rfc1123 truncate 132538464000000000 ≡ ok (codes "Thu, 01 Jan 2021 00:00:00 GMT"))
unfolding methods
runs = (refl, refl, refl, refl, refl, refl, refl, refl)

abbrev valentine : Moment
valentine = record { year = 2016; month = 1; day = 14; hour = 16; minute = 53; second = 20 }

valentine-IsMoment : IsMoment valentine
unfolding validate_day is_leap_year
valentine-IsMoment = record {
  from_1601 = omega arith;
  to_9999 = omega arith;
  month_lt = omega arith;
  day_valid = refl;
  hour_lt = omega arith;
  minute_lt = omega arith;
  second_lt = omega arith;
}

valentine_not_last : ¬ IsLeapDayEnd valentine
valentine_not_last (leap, december, last) = omega arith

abbrev new_years_eve : Moment
new_years_eve = record { year = 2020; month = 11; day = 31; hour = 23; minute = 30; second = 0 }

new_years_eve-IsMoment : IsMoment new_years_eve
unfolding validate_day is_leap_year
new_years_eve-IsMoment = record {
  from_1601 = omega arith;
  to_9999 = omega arith;
  month_lt = omega arith;
  day_valid = refl;
  hour_lt = omega arith;
  minute_lt = omega arith;
  second_lt = omega arith;
}

new_years_eve-IsLeapDayEnd : IsLeapDayEnd new_years_eve
unfolding is_leap_year
new_years_eve-IsLeapDayEnd = (refl, refl, refl)

parse-get_string_example :
    (get_string rfc3339 drop_trailing_zeros (ticks_of valentine 1_200_000) >>= parse rfc3339)
    ≡ ok (ticks_of valentine 1_200_000)
parse-get_string_example =
    parse-get_string valentine valentine-IsMoment 1_200_000 (omega arith) drop_trailing_zeros
      valentine_not_last

parse-get_string_leap_day_example :
    (get_string rfc3339 all_digits (ticks_of new_years_eve 5) >>= parse rfc3339)
    ≡ ok (ticks_of new_years_eve 5 + 86400 * ticks_in_second)
parse-get_string_leap_day_example =
    parse-get_string_leap_day new_years_eve new_years_eve-IsMoment 5 (omega arith) all_digits
      new_years_eve-IsLeapDayEnd

parse-get_string_rfc1123_example :
    (get_string rfc1123 truncate (ticks_of valentine 7) >>= parse rfc1123)
    ≡ ok (seconds_of valentine * ticks_in_second)
parse-get_string_rfc1123_example =
    parse-get_string_rfc1123 valentine valentine-IsMoment truncate 7 (omega arith)
      valentine_not_last

date_time-IsDateTime_example :
    (date_time 2016 2 14 16 53 60 ≡ ok 130999424400000000)
    ↔ (IsDateTime 2016 2 14 16 53 60 × (130999424400000000 ≡ gregorian_ticks 2016 2 14 16 53 60))
date_time-IsDateTime_example = date_time-IsDateTime 2016 2 14 16 53 60 130999424400000000
