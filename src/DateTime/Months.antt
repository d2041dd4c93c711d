-- ===== src/DateTime/Months.antt =====
-- The month tables of datetime.cpp: day and month of a day of the year.
use azure_sdk_for_cpp.Base.{
  ℕ, ◌+◌, ◌-◌, ◌≤◌, ◌<◌, ◌≡◌, refl, Bool, true, false, ◌&&◌, ◌||◌, arith, ltb, leb, ◌==◌,
  if◌then◌else◌, get_or, every_below, every_below-test,
}
use azure_sdk_for_cpp.DateTime.Calendar.{
  is_leap_year, to_int, cumulative_days_to_month, month_table, find_month, validate_day,
  get_year_day,
}

-- `validate_day` and `get_year_day` with the leap year test as an argument.
is_day : Bool → ℕ → ℕ → Bool
is_day leap month day =
    if ltb day 1
    then false
    else if month == 1
    then leb day (28 + to_int leap)
    else if month == 3 || month == 5 || month == 8 || month == 10
    then leb day 30
    else leb day 31

year_day : Bool → ℕ → ℕ → ℕ
year_day leap month day =
    get_or cumulative_days_to_month month 0 + day + to_int (leap && ltb 1 month) - 1

-- The loop finds the month and the subtraction the day again, within the length of the year.
found : Bool → ℕ → ℕ → Bool
unfolding is_day year_day find_month
found leap month day =
    let n = year_day leap month day in
    if is_day leap month day
    then find_month (month_table leap) 11 0 n == month
      && n - get_or (month_table leap) month 0 + 1 == day
      && (ltb n 365 || leap && month == 11 && day == 31)
      && ltb n (365 + to_int leap)
    else true

found_table :
    (leap : Bool) → every_below (λ month. every_below (λ day. found leap month day) 32) 12 ≡ true
unfolding every_below found
found_table true = refl
found_table false = refl

is_day-le : (leap : Bool) (month day : ℕ) → is_day leap month day ≡ true → day < 32
unfolding is_day
is_day-le leap month day h = ground arith

found_lem : (leap : Bool) (month day : ℕ) → month < 12 → day < 32 → found leap month day ≡ true
found_lem leap month day m d =
    every_below-test (λ k. found leap month k) 32 day d
      (every_below-test (λ k. every_below (λ j. found leap k j) 32) 12 month m (found_table leap))

module _ (year month day : ℕ) (m : month < 12) (valid : validate_day day month year ≡ true) where
  found_here : found (is_leap_year year) month day ≡ true
  unfolding validate_day is_day
  found_here =
      found_lem (is_leap_year year) month day m (is_day-le (is_leap_year year) month day valid)

  -- The loop over the month table finds the month of a valid date again, and with it the day.
  pub find_month-get_year_day :
      find_month (month_table (is_leap_year year)) 11 0 (get_year_day month day year) ≡ month
  unfolding found get_year_day year_day validate_day is_day
  find_month-get_year_day = ground (arith, found_here)

  pub month_day-get_year_day :
      get_year_day month day year - get_or (month_table (is_leap_year year)) month 0 + 1 ≡ day
  unfolding found get_year_day year_day validate_day is_day
  month_day-get_year_day = ground (arith, found_here)

  -- Only the last day of a leap year has the number 365, counted from 0.
  pub get_year_day-lt :
      ¬ ((is_leap_year year ≡ true) × (month ≡ 11) × (day ≡ 31)) → get_year_day month day year < 365
  unfolding found get_year_day year_day validate_day is_day
  get_year_day-lt h = ground (arith, found_here)

  -- In a common year no day has the number 365.
  pub get_year_day-le : get_year_day month day year ≤ 364 + to_int (is_leap_year year)
  unfolding found get_year_day year_day validate_day is_day
  get_year_day-le = ground (arith, found_here)

-- Day 0 of a year is in January, and January starts with it.
pub find_month-first : (leap : Bool) → find_month (month_table leap) 11 0 0 ≡ 0
unfolding find_month
find_month-first true = refl
find_month-first false = refl

pub get_or-first : (leap : Bool) → get_or (month_table leap) 0 0 ≡ 0
get_or-first true = refl
get_or-first false = refl
