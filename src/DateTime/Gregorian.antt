-- ===== src/DateTime/Gregorian.antt =====
-- The Gregorian calendar, by the lengths of its years and months, and that `DateTime` counts by it.
use azure_sdk_for_cpp.Base.{
  ℕ, zero, suc, ◌+◌, ◌-◌, ◌*◌, ◌%◌, ◌≤◌, ◌<◌, ◌≡◌, refl, ◌↔◌, Bool, true, false, List, [], ◌∷◌,
  arith, ◌==◌, if◌then◌else◌, get_or, Bool-cases, inl, inr,
}
use azure_sdk_for_cpp.DateTime.Calendar.{is_leap_year, validate_day, count_leap_years, get_year_day}
use azure_sdk_for_cpp.DateTime.Parse.{days_since_1601}

-- A leap year is one that 400 divides, or that 4 divides and 100 does not.
unfoldable pub gregorian_leap : ℕ → Bool
gregorian_leap year =
    if year % 400 == 0 then true else if year % 100 == 0 then false else year % 4 == 0

-- From January to December.
unfoldable pub month_lengths : Bool → List ℕ
month_lengths leap =
    31 ∷ (if leap then 29 else 28) ∷ 31 ∷ 30 ∷ 31 ∷ 30 ∷ 31 ∷ 31 ∷ 30 ∷ 31 ∷ 30 ∷ 31 ∷ []

-- The months count from 0.
unfoldable pub month_length : ℕ → ℕ → ℕ
month_length year month = get_or (month_lengths (gregorian_leap year)) month 0

-- The days of `n` years from 1601 on.
unfoldable pub days_of_years : ℕ → ℕ
days_of_years zero = 0
days_of_years (suc n) = days_of_years n + (if gregorian_leap (1601 + n) then 366 else 365)

-- The days of the first `n` months of a year.
unfoldable pub days_of_months : ℕ → ℕ → ℕ
days_of_months year zero = 0
days_of_months year (suc n) = days_of_months year n + month_length year n

is_leap_year-gregorian_leap : (year : ℕ) → is_leap_year year ≡ gregorian_leap year
unfolding is_leap_year gregorian_leap
is_leap_year-gregorian_leap year = ground arith

count_leap_years-suc :
    (n : ℕ)
    → count_leap_years (suc n) ≡ count_leap_years n + (if gregorian_leap (1601 + n) then 1 else 0)
unfolding count_leap_years gregorian_leap
count_leap_years-suc n = ground arith

days_of_years_lem : (n : ℕ) → n * 365 + count_leap_years n ≡ days_of_years n
unfolding days_of_years count_leap_years
days_of_years_lem zero = refl
days_of_years_lem (suc n) = elim (Bool-cases (gregorian_leap (1601 + n))) [
  | inl e ↦ let h = count_leap_years-suc n in let k = days_of_years_lem n in ground arith
  | inr e ↦ let h = count_leap_years-suc n in let k = days_of_years_lem n in ground arith
]

pub validate_day-month_length :
    (day month year : ℕ)
    → month < 12
    → (validate_day day month year ≡ true) ↔ ((1 ≤ day) × (day ≤ month_length year month))
unfolding validate_day month_length month_lengths
validate_day-month_length day zero year h = let e = is_leap_year-gregorian_leap year in ground arith
validate_day-month_length day (suc zero) year h =
    let e = is_leap_year-gregorian_leap year in ground arith
validate_day-month_length day (suc (suc zero)) year h =
    let e = is_leap_year-gregorian_leap year in ground arith
validate_day-month_length day (suc (suc (suc zero))) year h =
    let e = is_leap_year-gregorian_leap year in ground arith
validate_day-month_length day (suc (suc (suc (suc zero)))) year h =
    let e = is_leap_year-gregorian_leap year in ground arith
validate_day-month_length day (suc (suc (suc (suc (suc zero))))) year h =
    let e = is_leap_year-gregorian_leap year in ground arith
validate_day-month_length day (suc (suc (suc (suc (suc (suc zero)))))) year h =
    let e = is_leap_year-gregorian_leap year in ground arith
validate_day-month_length day (suc (suc (suc (suc (suc (suc (suc zero))))))) year h =
    let e = is_leap_year-gregorian_leap year in ground arith
validate_day-month_length day (suc (suc (suc (suc (suc (suc (suc (suc zero)))))))) year h =
    let e = is_leap_year-gregorian_leap year in ground arith
validate_day-month_length day (suc (suc (suc (suc (suc (suc (suc (suc (suc zero))))))))) year h =
    let e = is_leap_year-gregorian_leap year in ground arith
validate_day-month_length day (suc (suc (suc (suc (suc (suc (suc (suc (suc (suc zero)))))))))) year
      h =
    let e = is_leap_year-gregorian_leap year in ground arith
validate_day-month_length day (suc (suc (suc (suc (suc (suc (suc (suc (suc (suc (suc zero)))))))))))
      year h =
    let e = is_leap_year-gregorian_leap year in ground arith
validate_day-month_length day
      (suc (suc (suc (suc (suc (suc (suc (suc (suc (suc (suc (suc m)))))))))))) year h =
    absurd (omega arith)

get_year_day-days_of_months :
    (month day year : ℕ)
    → month < 12
    → 1 ≤ day
    → get_year_day month day year ≡ days_of_months year month + (day - 1)
unfolding get_year_day days_of_months month_length month_lengths
get_year_day-days_of_months zero day year h p =
    let e = is_leap_year-gregorian_leap year in ground arith
get_year_day-days_of_months (suc zero) day year h p =
    let e = is_leap_year-gregorian_leap year in ground arith
get_year_day-days_of_months (suc (suc zero)) day year h p =
    let e = is_leap_year-gregorian_leap year in ground arith
get_year_day-days_of_months (suc (suc (suc zero))) day year h p =
    let e = is_leap_year-gregorian_leap year in ground arith
get_year_day-days_of_months (suc (suc (suc (suc zero)))) day year h p =
    let e = is_leap_year-gregorian_leap year in ground arith
get_year_day-days_of_months (suc (suc (suc (suc (suc zero))))) day year h p =
    let e = is_leap_year-gregorian_leap year in ground arith
get_year_day-days_of_months (suc (suc (suc (suc (suc (suc zero)))))) day year h p =
    let e = is_leap_year-gregorian_leap year in ground arith
get_year_day-days_of_months (suc (suc (suc (suc (suc (suc (suc zero))))))) day year h p =
    let e = is_leap_year-gregorian_leap year in ground arith
get_year_day-days_of_months (suc (suc (suc (suc (suc (suc (suc (suc zero)))))))) day year h p =
    let e = is_leap_year-gregorian_leap year in ground arith
get_year_day-days_of_months (suc (suc (suc (suc (suc (suc (suc (suc (suc zero))))))))) day year h
      p =
    let e = is_leap_year-gregorian_leap year in ground arith
get_year_day-days_of_months (suc (suc (suc (suc (suc (suc (suc (suc (suc (suc zero)))))))))) day
      year h p =
    let e = is_leap_year-gregorian_leap year in ground arith
get_year_day-days_of_months (suc (suc (suc (suc (suc (suc (suc (suc (suc (suc (suc zero)))))))))))
      day year h p =
    let e = is_leap_year-gregorian_leap year in ground arith
get_year_day-days_of_months
      (suc (suc (suc (suc (suc (suc (suc (suc (suc (suc (suc (suc m)))))))))))) day year h p =
    absurd (omega arith)

-- The days before a date are those of the years and the months before it, and of its month.
pub days_since_1601-days :
    (year month day : ℕ)
    → month < 12
    → 1 ≤ day
    → days_since_1601 year month day
      ≡ days_of_years (year - 1601) + days_of_months year month + (day - 1)
unfolding days_since_1601
days_since_1601-days year month day h p =
    omega (arith, days_of_years_lem (year - 1601), get_year_day-days_of_months month day year h p)
