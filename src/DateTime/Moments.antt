-- ===== src/DateTime/Moments.antt =====
-- The date and time that `GetString` of datetime.cpp prints, against the seconds that `Parse`
-- computes from a date and a time.
use azure_sdk_for_cpp.Base.{
  ℕ, ◌+◌, ◌-◌, ◌*◌, ◌/◌, ◌%◌, ◌≤◌, ◌<◌, ◌≡◌, refl, Bool, true, false, arith,
}
use native.Mathlib.Decide.{dec_lt}
use azure_sdk_for_cpp.DateTime.Calendar.{
  to_int, compute_year, is_leap_year, count_leap_years, seconds_in_day, seconds_in_hour,
  seconds_in_minute, days_in_year, get_year_day, validate_day,
}
use azure_sdk_for_cpp.DateTime.Format.{Fields, fields}
use azure_sdk_for_cpp.DateTime.Parse.{days_since_1601, seconds_since_1601}
use azure_sdk_for_cpp.DateTime.Years.{compute_year-seconds, compute_year-leap_end, result}
use azure_sdk_for_cpp.DateTime.Months.{
  find_month-get_year_day, month_day-get_year_day, get_year_day-lt, get_year_day-le,
  find_month-first, get_or-first,
}

to_int-le : (b : Bool) → to_int b ≤ 1
to_int-le true = omega arith
to_int-le false = omega arith

to_int-leap_9999 : to_int (is_leap_year 9999) ≡ 0
unfolding is_leap_year
to_int-leap_9999 = refl

-- A date and a time of day; the month counts from 0.
pub record Moment : Type 0 where
  pub year : ℕ
  pub month : ℕ
  pub day : ℕ
  pub hour : ℕ
  pub minute : ℕ
  pub second : ℕ

-- A moment of the years 1601 to 9999, without leap seconds.
pub record IsMoment (m : Moment) : Type 0 where
  pub from_1601 : 1601 ≤ m.year
  pub to_9999 : m.year ≤ 9999
  pub month_lt : m.month < 12
  pub day_valid : validate_day m.day m.month m.year ≡ true
  pub hour_lt : m.hour < 24
  pub minute_lt : m.minute < 60
  pub second_lt : m.second < 60

abbrev pub IsLeapDayEnd : Moment → Type 0
IsLeapDayEnd m = (is_leap_year m.year ≡ true) × (m.month ≡ 11) × (m.day ≡ 31)

abbrev pub days_of : Moment → ℕ
days_of m = days_since_1601 m.year m.month m.day

abbrev pub seconds_of : Moment → ℕ
seconds_of m = seconds_since_1601 (days_of m) m.hour m.minute m.second

abbrev pub fields_of : Moment → Fields
fields_of m = record {
  year = m.year;
  month = m.month;
  month_day = m.day;
  hour = m.hour;
  minute = m.minute;
  leftover = m.second;
  weekday = (days_of m + 1) % 7;
}

module _ (m : Moment) (v : IsMoment m) where
  abbrev time_of_day : ℕ
  time_of_day = m.hour * 3600 + m.minute * 60 + m.second

  time_of_day-lt : time_of_day < 86400
  time_of_day-lt = omega arith

  compute_year-seconds_of :
      ¬ IsLeapDayEnd m
      → compute_year (seconds_of m)
        ≡ result (m.year - 1601) (get_year_day m.month m.day m.year * 86400 + time_of_day)
  unfolding seconds_since_1601 days_since_1601
  compute_year-seconds_of h =
      let n : get_year_day m.month m.day m.year < 365 =
        get_year_day-lt m.year m.month m.day v.month_lt v.day_valid h in
      let e : seconds_of m
          ≡ ((m.year - 1601) * days_in_year + count_leap_years (m.year - 1601)) * seconds_in_day
            + (get_year_day m.month m.day m.year * 86400 + time_of_day) =
        omega arith in
      rw e (
        compute_year-seconds (m.year - 1601)
          (get_year_day m.month m.day m.year * 86400 + time_of_day) (omega arith))

  -- Hour, minute, second and weekday do not depend on what `compute_year` makes of the days.
  clock_fields :
      (n : ℕ)
      → let t = n * 86400 + time_of_day in
        (t / seconds_in_day ≡ n)
        × (t % seconds_in_day / seconds_in_hour ≡ m.hour)
        × (t % seconds_in_day % seconds_in_hour / seconds_in_minute ≡ m.minute)
        × (t % seconds_in_day % seconds_in_hour % seconds_in_minute ≡ m.second)
  clock_fields n = (omega arith, omega arith, omega arith, omega arith)

  seconds_of-div : seconds_of m / seconds_in_day ≡ days_of m
  unfolding seconds_since_1601
  seconds_of-div = omega arith

  -- What is printed is the moment that was given, unless it is on the last day of a leap year.
  pub fields-seconds_of : ¬ IsLeapDayEnd m → fields (seconds_of m) ≡ fields_of m
  unfolding fields
  fields-seconds_of h =
      let (d, hh, mm, ss) = clock_fields (get_year_day m.month m.day m.year) in
      let y : m.year - 1601 + 1601 ≡ m.year = omega arith in
      rw
        (
          compute_year-seconds_of h,
          y,
          d,
          hh,
          mm,
          ss,
          seconds_of-div,
          find_month-get_year_day m.year m.month m.day v.month_lt v.day_valid,
          month_day-get_year_day m.year m.month m.day v.month_lt v.day_valid,
        )
        refl

  -- A moment does not lie after the year 9999.
  pub seconds_of-le : seconds_of m ≤ 265_046_774_399
  unfolding seconds_since_1601 days_since_1601 count_leap_years
  seconds_of-le =
      let n = get_year_day-le m.year m.month m.day v.month_lt v.day_valid in
      let one = to_int-le (is_leap_year m.year) in
      elim (dec_lt m.year 9999) [
        | yes earlier ↦ omega arith
        | no later ↦
            let y : m.year ≡ 9999 = omega arith in
            let common : to_int (is_leap_year m.year) ≡ 0 = rw y to_int-leap_9999 in omega arith
      ]

  compute_year-leap_day :
      IsLeapDayEnd m
      → compute_year (seconds_of m) ≡ result (m.year - 1601 + 1) (0 * 86400 + time_of_day)
  unfolding seconds_since_1601 days_since_1601 get_year_day
  compute_year-leap_day (leap, december, last) =
      let y : m.year - 1601 + 1601 ≡ m.year = omega arith in
      let n : get_year_day m.month m.day m.year ≡ 365 = ground arith in
      let e : seconds_of m
          ≡ ((m.year - 1601) * days_in_year + count_leap_years (m.year - 1601) + 365)
              * seconds_in_day
            + (0 * 86400 + time_of_day) =
        rw n (omega arith) in
      rw e
        (compute_year-leap_end (m.year - 1601) (0 * 86400 + time_of_day) (rw y leap) (omega arith))

  -- On the last day of a leap year the first of January of the next year is printed.
  pub fields-leap_day :
      IsLeapDayEnd m
      → fields (seconds_of m) ≡ record (fields_of m) { year = m.year + 1; month = 0; month_day = 1 }
  unfolding fields
  fields-leap_day h =
      let (d, hh, mm, ss) = clock_fields 0 in
      let y : m.year - 1601 + 1 + 1601 ≡ m.year + 1 = omega arith in
      rw
        (
          compute_year-leap_day h,
          y,
          d,
          hh,
          mm,
          ss,
          seconds_of-div,
          find_month-first (is_leap_year (m.year + 1)),
          get_or-first (is_leap_year (m.year + 1)),
        )
        refl

  -- The first day of the year after a leap year comes right after the leap year's last day.
  pub days_since_1601-leap_day : IsLeapDayEnd m → days_since_1601 (m.year + 1) 0 1 ≡ days_of m + 1
  unfolding days_since_1601 get_year_day count_leap_years is_leap_year
  days_since_1601-leap_day (leap, december, last) = ground arith

  -- The year 9999 is not a leap year.
  pub leap_year-lt : IsLeapDayEnd m → m.year < 9999
  leap_year-lt (leap, december, last) = elim (dec_lt m.year 9999) [
    | yes earlier ↦ earlier
    | no later ↦
        let y : m.year ≡ 9999 = omega arith in
        let one : to_int (is_leap_year m.year) ≡ 1 = rw leap refl in
        let none : to_int (is_leap_year m.year) ≡ 0 = rw y to_int-leap_9999 in absurd (omega arith)
  ]

  pub day-lt : m.day < 32
  unfolding validate_day
  day-lt = let d = v.day_valid in ground arith
