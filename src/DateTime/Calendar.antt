-- ===== src/DateTime/Calendar.antt =====
-- sdk/core/azure-core/src/datetime.cpp: the calendar arithmetic behind `DateTime`. A value is the
-- number of ticks of 100 ns since 1601-01-01, and not negative; months count from 0.
use azure_sdk_for_cpp.Base.{
  ℕ, zero, suc, ◌+◌, ◌-◌, ◌*◌, ◌/◌, ◌%◌, Bool, false, not, ◌&&◌, ◌||◌, List, [], ◌∷◌, Option, none,
  some, ltb, leb, ◌==◌, if◌then◌else◌, get_or,
}

abbrev pub min_year : ℕ
min_year = 1601

abbrev pub max_year : ℕ
max_year = 9999

abbrev pub seconds_in_minute : ℕ
seconds_in_minute = 60

abbrev pub seconds_in_hour : ℕ
seconds_in_hour = seconds_in_minute * 60

abbrev pub seconds_in_day : ℕ
seconds_in_day = 24 * seconds_in_hour

abbrev pub days_in_year : ℕ
days_in_year = 365

-- `Duration::period::den`
abbrev pub ticks_in_second : ℕ
ticks_in_second = 10_000_000

pub record ComputeYearResult : Type 0 where
  pub year : ℕ
  pub seconds_left_this_year : ℕ

unfoldable pub compute_year : ℕ → ComputeYearResult
compute_year seconds_since_1601 =
    let days_in_4_years = days_in_year * 4 + 1 in
    let days_in_100_years = days_in_4_years * 25 - 1 in
    let days_in_400_years = days_in_100_years * 4 + 1 in
    let seconds_in_year = seconds_in_day * days_in_year in
    let seconds_in_4_years = seconds_in_day * days_in_4_years in
    let seconds_in_100_years = seconds_in_day * days_in_100_years in
    let seconds_in_400_years = seconds_in_day * days_in_400_years in
    let year400 = seconds_since_1601 / seconds_in_400_years in
    let left400 = seconds_since_1601 - year400 * seconds_in_400_years in
    let year100 = left400 / seconds_in_100_years in
    let left100 = left400 - year100 * seconds_in_100_years in
    let year4 = left100 / seconds_in_4_years in
    let left4 = left100 - year4 * seconds_in_4_years in
    let year1 = left4 / seconds_in_year in
    record {
      year = year400 * 400 + year100 * 100 + year4 * 4 + year1;
      seconds_left_this_year = left4 - year1 * seconds_in_year;
    }

unfoldable pub is_leap_year : ℕ → Bool
is_leap_year year = year % 4 == 0 && (not (year % 100 == 0) || year % 400 == 0)

-- A Boolean where C++ adds it to a number.
abbrev pub to_int : Bool → ℕ
to_int b = if b then 1 else 0

abbrev pub cumulative_days_to_month : List ℕ
cumulative_days_to_month = 0 ∷ 31 ∷ 59 ∷ 90 ∷ 120 ∷ 151 ∷ 181 ∷ 212 ∷ 243 ∷ 273 ∷ 304 ∷ 334 ∷ []

abbrev pub cumulative_days_to_month_leap : List ℕ
cumulative_days_to_month_leap =
    0 ∷ 31 ∷ 60 ∷ 91 ∷ 121 ∷ 152 ∷ 182 ∷ 213 ∷ 244 ∷ 274 ∷ 305 ∷ 335 ∷ []

abbrev pub month_table : Bool → List ℕ
month_table leap = if leap then cumulative_days_to_month_leap else cumulative_days_to_month

-- The loop `while (month < 11 && monthTable[month + 1] <= yearDay) ++month`, at `month`, with
-- 11 - month rounds left.
unfoldable pub find_month : List ℕ → ℕ → ℕ → ℕ → ℕ
find_month table zero month year_day = month
find_month table (suc left) month year_day =
    let later = find_month table left (month + 1) year_day in
    if leb (get_or table (month + 1) 0) year_day then later else month

unfoldable pub validate_day : ℕ → ℕ → ℕ → Bool
validate_day day month year =
    if ltb day 1
    then false
    else if month == 1
    then leb day (28 + to_int (is_leap_year year))
    else if month == 3 || month == 5 || month == 8 || month == 10
    then leb day 30
    else leb day 31

unfoldable pub get_year_day : ℕ → ℕ → ℕ → ℕ
get_year_day month month_day year =
    get_or cumulative_days_to_month month 0
    + month_day
    + to_int (is_leap_year year && ltb 1 month)
    - 1

unfoldable pub count_leap_years : ℕ → ℕ
count_leap_years years_since_1601 =
    let year400 = years_since_1601 / 400 in
    let left400 = years_since_1601 - year400 * 400 in
    let year100 = left400 / 100 in
    let left100 = left400 - year100 * 100 in year400 * 97 + year100 * 24 + left100 / 4

-- `none` is the result -1, which the callers refuse. The bound is that of `int64_t`.
unfoldable pub adjust_timezone : ℕ → ℕ → ℕ → ℕ → Option ℕ
adjust_timezone result sign adjust_hours adjust_minutes =
    let tz_adjust = adjust_minutes * 60 + adjust_hours * 60 * 60 in
    if ltb 23 adjust_hours
    then none
    else if sign == b'-'
    then (if ltb (9_223_372_036_854_775_807 - result) tz_adjust
        then none
        else some (result + tz_adjust))
    else if ltb result tz_adjust
    then none
    else some (result - tz_adjust)
