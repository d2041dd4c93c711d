-- ===== src/DateTime/Format.antt =====
-- sdk/core/azure-core/src/datetime.cpp: `DateTime::GetString`.
use azure_sdk_for_cpp.Base.{
  ℕ, ◌+◌, ◌-◌, ◌/◌, ◌%◌, Bool, true, false, List, [], ◌∷◌, ◌++◌, ltb, ◌==◌, if◌then◌else◌, get_or,
  Bytes, codes, Result, ok, err,
}
use azure_sdk_for_cpp.DateTime.Calendar.{
  min_year, seconds_in_day, seconds_in_hour, seconds_in_minute, ticks_in_second, compute_year,
  is_leap_year, month_table, find_month,
}

pub data DateFormat : Type 0 where
  rfc1123 rfc3339 : DateFormat

pub data TimeFractionFormat : Type 0 where
  drop_trailing_zeros all_digits truncate : TimeFractionFormat

-- The exceptions of this class, by their messages.
pub data DateError : Type 0 where
  year_exceeds_9999 year_less_than_1601 bad_year bad_month bad_month_number : DateError
  bad_day bad_day_of_month bad_hour bad_minute bad_second bad_weekday : DateError
  bad_hour_and_minute bad_time_zone before_1601 malformed : DateError

abbrev pub day_names : List Bytes
day_names =
    codes "Sun"
    ∷ codes "Mon"
    ∷ codes "Tue"
    ∷ codes "Wed"
    ∷ codes "Thu"
    ∷ codes "Fri"
    ∷ codes "Sat"
    ∷ []

abbrev pub month_names : List Bytes
month_names =
    codes "Jan"
    ∷ codes "Feb"
    ∷ codes "Mar"
    ∷ codes "Apr"
    ∷ codes "May"
    ∷ codes "Jun"
    ∷ codes "Jul"
    ∷ codes "Aug"
    ∷ codes "Sep"
    ∷ codes "Oct"
    ∷ codes "Nov"
    ∷ codes "Dec"
    ∷ []

-- The local variables of `GetString`; `month` counts from 0 and `leftover` ends as the second.
pub record Fields : Type 0 where
  pub year : ℕ
  pub month : ℕ
  pub month_day : ℕ
  pub hour : ℕ
  pub minute : ℕ
  pub leftover : ℕ
  pub weekday : ℕ

unfoldable pub fields : ℕ → Fields
fields seconds_since_1601 =
    let year_data = compute_year seconds_since_1601 in
    let left = year_data.seconds_left_this_year in
    let year = year_data.year + min_year in
    let year_day = left / seconds_in_day in
    let table = month_table (is_leap_year year) in
    let month = find_month table 11 0 year_day in
    record {
      year = year;
      month = month;
      month_day = year_day - get_or table month 0 + 1;
      hour = left % seconds_in_day / seconds_in_hour;
      minute = left % seconds_in_day % seconds_in_hour / seconds_in_minute;
      leftover = left % seconds_in_day % seconds_in_hour % seconds_in_minute;
      weekday = (seconds_since_1601 / seconds_in_day + 1) % 7;
    }

abbrev pub digit : ℕ → ℕ
digit v = b'0' + v % 10

-- `%02d`, `%04d` and `%07d` of values with at most that many digits.
abbrev pub pad2 : ℕ → Bytes
pad2 v = digit (v / 10) ∷ digit v ∷ []

abbrev pub pad4 : ℕ → Bytes
pad4 v = digit (v / 1000) ∷ digit (v / 100) ∷ digit (v / 10) ∷ digit v ∷ []

abbrev pub pad7 : ℕ → Bytes
pad7 v =
    digit (v / 1_000_000)
    ∷ digit (v / 100_000)
    ∷ digit (v / 10_000)
    ∷ digit (v / 1000)
    ∷ digit (v / 100)
    ∷ digit (v / 10)
    ∷ digit v
    ∷ []

abbrev pub is_nil : Bytes → Bool
is_nil [] = true
is_nil (c ∷ cs) = false

-- `while (outCursor[appended - 1] == '0') --appended;`
unfoldable pub trim_zeros : Bytes → Bytes
trim_zeros [] = []
trim_zeros (c ∷ cs) =
    let rest = trim_zeros cs in if is_nil rest then (if c == b'0' then [] else c ∷ []) else c ∷ rest

unfoldable pub fraction : TimeFractionFormat → ℕ → Bytes
unfolding trim_zeros
fraction all_digits frac = b'.' ∷ pad7 frac
fraction truncate frac = []
fraction drop_trailing_zeros frac = if frac == 0 then [] else b'.' ∷ trim_zeros (pad7 frac)

unfoldable pub print_rfc1123 : Fields → Bytes
print_rfc1123 f =
    get_or day_names f.weekday []
    ++ (codes ", "
        ++ (pad2 f.month_day
            ++ (codes " "
                ++ (get_or month_names f.month []
                    ++ (codes " "
                        ++ (pad4 f.year
                            ++ (codes " "
                                ++ (pad2 f.hour
                                    ++ (codes ":"
                                        ++ (pad2 f.minute
                                            ++ (codes ":"
                                                ++ (pad2 f.leftover ++ codes " GMT"))))))))))))

unfoldable pub print_date_time : ℕ → ℕ → ℕ → ℕ → ℕ → ℕ → Bytes
print_date_time year month day hour minute second =
    pad4 year
    ++ codes "-"
    ++ pad2 month
    ++ codes "-"
    ++ pad2 day
    ++ codes "T"
    ++ pad2 hour
    ++ codes ":"
    ++ pad2 minute
    ++ codes ":"
    ++ pad2 second

abbrev pub end_of_year_9999 : ℕ
end_of_year_9999 = 2_650_467_743_999_999_999

unfoldable pub get_string : DateFormat → TimeFractionFormat → ℕ → Result DateError Bytes
get_string format fraction_format since_1601 =
    let f = fields (since_1601 / ticks_in_second) in
    if ltb end_of_year_9999 since_1601 then err year_exceeds_9999 else elim format [
      | rfc1123 ↦ ok (print_rfc1123 f)
      | rfc3339 ↦ ok (
          print_date_time f.year (f.month + 1) f.month_day f.hour f.minute f.leftover
          ++ (fraction fraction_format (since_1601 % ticks_in_second) ++ codes "Z"))
    ]
