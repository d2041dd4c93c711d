-- ===== src/DateTime/Construct.antt =====
-- The constructor `DateTime(year, month, day, hour, minute, second)` of datetime.cpp.
use azure_sdk_for_cpp.Base.{
  ℕ, ◌+◌, ◌-◌, ◌*◌, ◌≤◌, ◌<◌, ◌≡◌, refl, sym, ap, ◌∙◌, ◌↔◌, true, arith, codes, Result, ok, ◌++◌,
}
use azure_sdk_for_cpp.DateTime.Calendar.{validate_day}
use azure_sdk_for_cpp.DateTime.Format.{DateError, print_date_time, rfc3339}
use azure_sdk_for_cpp.DateTime.Parse.{parse, parse_fraction, date_time, seconds_since_1601}
use azure_sdk_for_cpp.DateTime.Gregorian.{
  days_of_years, days_of_months, month_length, validate_day-month_length, days_since_1601-days,
}
use azure_sdk_for_cpp.DateTime.RoundTrip.{parse_rfc3339-print}

ok_injective : {t u : ℕ} → ◌≡◌ {A = Result DateError ℕ} (ok t) (ok u) → t ≡ u
ok_injective h = cc

day-small : (day month year : ℕ) → validate_day day month year ≡ true → day < 32
unfolding validate_day
day-small day month year h = ground arith

-- The ticks from 1601-01-01 to a moment, by the lengths of the years and months before it.
unfoldable pub gregorian_ticks : ℕ → ℕ → ℕ → ℕ → ℕ → ℕ → ℕ
gregorian_ticks year month day hour minute second =
    let days = days_of_years (year - 1601) + days_of_months year (month - 1) + (day - 1) in
    (days * 86400 + hour * 3600 + minute * 60 + second) * 10000000

module _ (year month day hour minute second : ℕ) where
  -- The arguments that the constructor takes; second 60 is a leap second.
  pub record IsDateTime : Type 0 where
    pub from_1601 : 1601 ≤ year
    pub to_9999 : year ≤ 9999
    pub month_pos : 1 ≤ month
    pub month_le : month ≤ 12
    pub day_pos : 1 ≤ day
    pub day_le : day ≤ month_length year (month - 1)
    pub hour_lt : hour < 24
    pub minute_lt : minute < 60
    pub second_le : second ≤ 60

  day_valid : IsDateTime → validate_day day (month - 1) year ≡ true
  day_valid v =
      (validate_day-month_length day (month - 1) year
          (let a = v.month_pos in let b = v.month_le in omega arith)).1
        (v.day_pos, v.day_le)

  date_time_checked :
      IsDateTime
      → date_time year month day hour minute second
        ≡ parse rfc3339 (print_date_time year month day hour minute second ++ codes "Z")
  unfolding date_time validate_day
  date_time_checked v = let d = day_valid v in ground arith

  date_time_accepts :
      {ticks : ℕ} → date_time year month day hour minute second ≡ ok ticks → IsDateTime
  unfolding date_time
  date_time_accepts h =
      let pos : 1 ≤ month = ground arith in
      let le : month ≤ 12 = ground arith in
      let valid : validate_day day (month - 1) year ≡ true = ground arith in
      let days = (validate_day-month_length day (month - 1) year (omega arith)).0 valid in
      record {
        from_1601 = ground arith;
        to_9999 = ground arith;
        month_pos = pos;
        month_le = le;
        day_pos = days.0;
        day_le = days.1;
        hour_lt = ground arith;
        minute_lt = ground arith;
        second_le = ground arith;
      }

  date_time_ticks :
      IsDateTime
      → date_time year month day hour minute second
        ≡ ok (gregorian_ticks year month day hour minute second)
  unfolding parse_fraction gregorian_ticks seconds_since_1601
  date_time_ticks v =
      let m : month ≡ month - 1 + 1 = omega arith in
      date_time_checked v
      ∙ ap (λ k. parse rfc3339 (print_date_time year k day hour minute second ++ codes "Z")) m
      ∙ parse_rfc3339-print year (month - 1) day hour minute second 0 (codes "Z") v.from_1601
          v.to_9999 (omega arith) (day-small day (month - 1) year (day_valid v)) (day_valid v)
          v.hour_lt v.minute_lt v.second_le refl
      ∙ ap ok (
          omega (
            arith,
            days_since_1601-days year (month - 1) day
                (let a = v.month_pos in let b = v.month_le in omega arith) v.day_pos,
          ))

  -- The constructor takes exactly the dates of the Gregorian calendar from 1601 to 9999, with a day
  -- from 1 to the length of the month and a time of day, second 60 included, and gives the ticks
  -- from 1601-01-01 to that moment, by the lengths of the years and the months before it.
  pub date_time-IsDateTime :
      (ticks : ℕ)
      → (date_time year month day hour minute second ≡ ok ticks)
        ↔ (IsDateTime × (ticks ≡ gregorian_ticks year month day hour minute second))
  unfolding date_time
  date_time-IsDateTime ticks = (
    (λ h. (date_time_accepts h, ok_injective (sym h ∙ date_time_ticks (date_time_accepts h)))),
    (λ (v, e). date_time_ticks v ∙ ap ok (sym e)),
  )
