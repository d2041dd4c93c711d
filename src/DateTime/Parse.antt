-- ===== src/DateTime/Parse.antt =====
-- sdk/core/azure-core/src/datetime.cpp: `DateTime::Parse` and the constructor from a date and a
-- time. A C string is the list of its bytes, and a read at its end gives the terminating 0. The
-- code reads a byte only after the ones before it were seen not to be 0.
use azure_sdk_for_cpp.Base.{
  ℕ, zero, suc, ◌+◌, ◌-◌, ◌*◌, ◌%◌, ◌^◌, Bool, true, false, not, ◌&&◌, ◌||◌, List, [], ◌∷◌, ◌++◌,
  Option, none, some, ltb, leb, ◌==◌, if◌then◌else◌, get_or, drop, Bytes, codes, Result, ok, err,
  ◌>>=◌, ◌>>◌, require,
}
use azure_sdk_for_cpp.DateTime.Calendar.{
  min_year, max_year, days_in_year, seconds_in_day, seconds_in_hour, seconds_in_minute,
  ticks_in_second, validate_day, get_year_day, count_leap_years, adjust_timezone,
}
use azure_sdk_for_cpp.DateTime.Format.{
  DateFormat, rfc1123, rfc3339, DateError, year_exceeds_9999, year_less_than_1601, bad_year,
  bad_month, bad_month_number, bad_day, bad_day_of_month, bad_hour, bad_minute, bad_second,
  bad_weekday, bad_hour_and_minute, bad_time_zone, before_1601, malformed, day_names, month_names,
  print_date_time,
}

-- `str[i]`
abbrev pub at : Bytes → ℕ → ℕ
at s i = get_or s i 0

unfoldable pub string_starts_with : Bytes → Bytes → Bool
string_starts_with s [] = true
string_starts_with [] (n ∷ ns) = false
string_starts_with (c ∷ s) (n ∷ ns) = c == n && string_starts_with s ns

-- `IsDigit<N>`; the subtraction is in `unsigned char`.
unfoldable pub is_digit : ℕ → ℕ → Bool
is_digit n c = leb ((c + 256 - b'0') % 256) n

-- The value of two, and of four, bytes that have been seen to be digits.
abbrev pub string_to_double_digit_int : Bytes → ℕ
string_to_double_digit_int s = (at s 0 - b'0') * 10 + (at s 1 - b'0')

abbrev pub four_digit_int : Bytes → ℕ
four_digit_int s =
    (at s 0 - b'0') * 1000 + (at s 1 - b'0') * 100 + (at s 2 - b'0') * 10 + (at s 3 - b'0')

abbrev is_two_digits : ℕ → Bytes → Bool
is_two_digits n s = is_digit n (at s 0) && is_digit 9 (at s 1)

abbrev is_four_digits : Bytes → Bool
is_four_digits s =
    is_digit 9 (at s 0) && is_digit 9 (at s 1) && is_digit 9 (at s 2) && is_digit 9 (at s 3)

-- `if (*str == c) ++str;`
abbrev pub skip : ℕ → Bytes → Bytes
skip c s = if at s 0 == c then drop 1 s else s

-- Days since 1601-01-01; `year` counts from 1601 in the last part.
unfoldable pub days_since_1601 : ℕ → ℕ → ℕ → ℕ
days_since_1601 year month month_day =
    (year - min_year) * days_in_year
    + count_leap_years (year - min_year)
    + get_year_day month month_day year

unfoldable pub seconds_since_1601 : ℕ → ℕ → ℕ → ℕ → ℕ
seconds_since_1601 days hour minute sec =
    days * seconds_in_day + hour * seconds_in_hour + minute * seconds_in_minute + sec

-- The loop over `dayNames`: the index of the day, 7 if there is none, and what follows it.
unfoldable pub find_weekday : List Bytes → ℕ → Bytes → ℕ × Bytes
unfolding string_starts_with
find_weekday [] i s = (i, s)
find_weekday (name ∷ names) i s =
    let rest = find_weekday names (i + 1) s in
    if string_starts_with s name && at s 3 == b',' && at s 4 == b' ' then (i, drop 5 s) else rest

-- The loop over `monthNames`.
unfoldable pub find_month_name : List Bytes → ℕ → Bytes → Option ℕ
unfolding string_starts_with
find_month_name [] i s = none
find_month_name (name ∷ names) i s =
    let rest = find_month_name names (i + 1) s in if string_starts_with s name then some i else rest

unfoldable pub parse_day_1123 : Bytes → Result DateError (ℕ × Bytes)
unfolding is_digit
parse_day_1123 s =
    if is_two_digits 3 s && at s 2 == b' '
    then ok (string_to_double_digit_int s, drop 3 s)
    else if is_digit 9 (at s 0) && at s 1 == b' '
    then ok (at s 0 - b'0', drop 2 s)
    else err bad_day

unfoldable pub parse_month_1123 : Bytes → Result DateError (ℕ × Bytes)
unfolding find_month_name
parse_month_1123 s = elim (find_month_name month_names 0 s) [
  | none ↦ err bad_month
  | some month ↦ if at s 3 == b' ' then ok (month, drop 4 s) else err malformed
]

unfoldable pub parse_year_1123 : Bytes → Result DateError (ℕ × Bytes)
unfolding is_digit
parse_year_1123 s =
    if not (is_four_digits s && at s 4 == b' ')
    then err bad_year
    else if ltb (four_digit_int s) min_year
    then err year_less_than_1601
    else ok (four_digit_int s, drop 5 s)

-- The seconds, which may be left out.
unfoldable pub parse_second_1123 : Bytes → Result DateError (ℕ × Bytes)
unfolding is_digit
parse_second_1123 s =
    if at s 0 == b':'
    then (if not (is_two_digits 6 (drop 1 s) && at s 3 == b' ')
        then err malformed
        else ok (string_to_double_digit_int (drop 1 s), drop 4 s))
    else if at s 0 == b' '
    then ok (0, drop 1 s)
    else err malformed

-- Hour, minute and second, and what follows.
unfoldable pub parse_time_1123 : Bytes → Result DateError (ℕ × ℕ × ℕ × Bytes)
unfolding is_digit parse_second_1123
parse_time_1123 s = do
  require (is_two_digits 2 s && at s 2 == b':' && is_two_digits 5 (drop 3 s)) bad_hour_and_minute
  require (leb (string_to_double_digit_int s) 23) bad_hour
  (sec, rest) ← parse_second_1123 (drop 5 s)
  require (leb sec 60) bad_second
  ok (string_to_double_digit_int s, string_to_double_digit_int (drop 3 s), sec, rest)

-- The sign of the offset, its hours and its minutes; `none` if no adjustment is necessary.
unfoldable pub parse_zone_1123 : Bytes → Result DateError (Option (ℕ × ℕ × ℕ))
unfolding is_digit string_starts_with
parse_zone_1123 s =
    let starts = λ (name : Bytes). string_starts_with s name in
    if starts (codes "GMT") || starts (codes "UT")
    then ok none
    else if starts (codes "EDT")
    then ok (some (b'-', 4, 0))
    else if starts (codes "EST") || starts (codes "CDT")
    then ok (some (b'-', 5, 0))
    else if starts (codes "CST") || starts (codes "MDT")
    then ok (some (b'-', 6, 0))
    else if starts (codes "MST") || starts (codes "PDT")
    then ok (some (b'-', 7, 0))
    else if starts (codes "PST")
    then ok (some (b'-', 8, 0))
    else if (at s 0 == b'+' || at s 0 == b'-')
        && is_two_digits 2 (drop 1 s)
        && is_two_digits 5 (drop 3 s)
    then ok (
        some (at s 0, string_to_double_digit_int (drop 1 s), string_to_double_digit_int (drop 3 s)))
    else err bad_time_zone

-- `AdjustTimezone` and the test of its result.
unfoldable pub apply_zone : DateError → ℕ → Option (ℕ × ℕ × ℕ) → Result DateError ℕ
apply_zone failure seconds none = ok seconds
apply_zone failure seconds (some (sign, hours, minutes)) =
    elim (adjust_timezone seconds sign hours minutes) [
      | none ↦ err failure
      | some adjusted ↦ ok adjusted
    ]

unfoldable pub parse_rfc1123 : Bytes → Result DateError ℕ
parse_rfc1123 text = do
  let (weekday, s0) = find_weekday day_names 0 text
  (day, s1) ← parse_day_1123 s0
  require (not (day == 0)) bad_day
  (month, s2) ← parse_month_1123 s1
  (year, s3) ← parse_year_1123 s2
  require (validate_day day month year) bad_day_of_month
  (hour, minute, sec, s4) ← parse_time_1123 s3
  let days = days_since_1601 year month day
  require (weekday == 7 || weekday == (days + 1) % 7) bad_weekday
  zone ← parse_zone_1123 s4
  seconds ← apply_zone before_1601 (seconds_since_1601 days hour minute sec) zone
  ok (seconds * ticks_in_second)

-- `year`, `month` (counted from 0) and day of a date of RFC 3339, and what follows it.
unfoldable pub parse_date_3339 : Bytes → Result DateError (ℕ × ℕ × ℕ × Bytes)
unfolding is_digit
parse_date_3339 s = do
  require (is_four_digits s) bad_year
  let year = four_digit_int s
  require (leb min_year year) year_less_than_1601
  let s1 = skip b'-' (drop 4 s)
  require (is_two_digits 1 s1) bad_month
  let month = string_to_double_digit_int s1
  require (leb 1 month && leb month 12) bad_month_number
  let s2 = skip b'-' (drop 2 s1)
  require (is_two_digits 3 s2) bad_day
  let day = string_to_double_digit_int s2
  require (validate_day day (month - 1) year) bad_day_of_month
  ok (year, month - 1, day, drop 2 s2)

-- Hour, minute and second of RFC 3339.
unfoldable pub parse_time_3339 : Bytes → Result DateError (ℕ × ℕ × ℕ × Bytes)
unfolding is_digit
parse_time_3339 s = do
  require (is_two_digits 2 s) bad_hour
  let hour = string_to_double_digit_int s
  require (leb hour 23) bad_hour
  let s1 = skip b':' (drop 2 s)
  require (is_two_digits 5 s1) bad_minute
  let s2 = skip b':' (drop 2 s1)
  require (is_two_digits 6 s2) bad_second
  let sec = string_to_double_digit_int s2
  require (leb sec 60) bad_second
  ok (hour, string_to_double_digit_int s1, sec, drop 2 s2)

unfoldable pub skip_digits : Bytes → Bytes
unfolding is_digit
skip_digits [] = []
skip_digits (c ∷ s) = if is_digit 9 c then skip_digits s else c ∷ s

-- The loop over at most seven digits of a fraction, with `digits` still to go.
unfoldable pub fraction_loop : ℕ → ℕ → Bytes → ℕ × Bytes
unfolding is_digit skip_digits
fraction_loop zero frac s = (frac, skip_digits s)
fraction_loop (suc digits) frac s =
    let more = fraction_loop digits (frac * 10 + (at s 0 - b'0')) (drop 1 s) in
    if is_digit 9 (at s 0) then more else (frac * 10 ^ suc digits, s)

unfoldable pub parse_fraction : Bytes → ℕ × Bytes
parse_fraction s =
    if at s 0 == b'.' && is_digit 9 (at s 1) then fraction_loop 7 0 (drop 1 s) else (0, s)

-- A malformed zone counts as none.
unfoldable pub parse_zone_3339 : Bytes → Result DateError (Option (ℕ × ℕ × ℕ))
unfolding is_digit
parse_zone_3339 s =
    if at s 0 == b'Z' || at s 0 == b'z'
    then ok none
    else if at s 0 == b'+' || at s 0 == b'-'
    then (if not (is_two_digits 2 (drop 1 s) && at s 3 == b':' && is_two_digits 5 (drop 4 s))
        then err malformed
        else ok (
            some (
              at s 0,
              string_to_double_digit_int (drop 1 s),
              string_to_double_digit_int (drop 4 s),
            )))
    else ok none

-- What follows the date: the time of day, its fraction and the zone, in ticks.
unfoldable pub parse_rest_3339 : ℕ → Bytes → Result DateError ℕ
parse_rest_3339 days s = do
  (hour, minute, sec, s1) ← parse_time_3339 s
  let (frac, s2) = parse_fraction s1
  zone ← parse_zone_3339 s2
  seconds ← apply_zone malformed (seconds_since_1601 days hour minute sec) zone
  ok (seconds * ticks_in_second + frac)

unfoldable pub parse_rfc3339 : Bytes → Result DateError ℕ
parse_rfc3339 text = do
  (year, month, day, s) ← parse_date_3339 text
  let days = days_since_1601 year month day
  elim (at s 0 == b'T' || at s 0 == b't') [
    | true ↦ parse_rest_3339 days (drop 1 s)
    | false ↦ ok (days * seconds_in_day * ticks_in_second)
  ]

unfoldable pub parse : DateFormat → Bytes → Result DateError ℕ
parse rfc1123 text = parse_rfc1123 text
parse rfc3339 text = parse_rfc3339 text

-- The constructor; negative arguments, which the code refuses like 0 or an excess, are left out.
unfoldable pub date_time : ℕ → ℕ → ℕ → ℕ → ℕ → ℕ → Result DateError ℕ
date_time year month day hour minute second = do
  require (leb year max_year) year_exceeds_9999
  require (leb min_year year) year_less_than_1601
  require (not (month == 0) && leb month 12) bad_month_number
  require (not (day == 0) && leb day 31) bad_day
  require (leb hour 23) bad_hour
  require (leb minute 59) bad_minute
  require (leb second 60) bad_second
  require (validate_day day (month - 1) year) bad_day_of_month
  parse rfc3339 (print_date_time year month day hour minute second ++ codes "Z")
