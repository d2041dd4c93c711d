-- ===== src/DateTime/Years.antt =====
-- `ComputeYear` of datetime.cpp against the count of days that `Parse` makes.
use azure_sdk_for_cpp.Base.{
  ℕ, ◌+◌, ◌-◌, ◌*◌, ◌/◌, ◌%◌, ◌<◌, ◌≡◌, refl, ◌∙◌, ap, true, ◌⊎◌, inl, inr, arith,
}
use azure_sdk_for_cpp.DateTime.Calendar.{
  ComputeYearResult, compute_year, is_leap_year, count_leap_years, seconds_in_day, days_in_year,
}

abbrev pub result : ℕ → ℕ → ComputeYearResult
result year left = record { year = year; seconds_left_this_year = left }

-- Seconds to the start of year 400 a + 100 b + 4 c + e, counted from 1601.
abbrev start_of : ℕ → ℕ → ℕ → ℕ → ℕ
start_of a b c e = a * 12_622_780_800 + b * 3_155_673_600 + c * 126_230_400 + e * 31_536_000

module _ (a b c e t : ℕ) where
  compute_year_parts :
      b * 3_155_673_600 + c * 126_230_400 + e * 31_536_000 + t < 12_622_780_800
      → c * 126_230_400 + e * 31_536_000 + t < 3_155_673_600
      → e * 31_536_000 + t < 126_230_400
      → t < 31_536_000
      → compute_year (start_of a b c e + t) ≡ result (a * 400 + b * 100 + c * 4 + e) t
  unfolding compute_year
  compute_year_parts hb hc he ht =
      let p : (start_of a b c e + t) / 12_622_780_800 ≡ a = omega arith in
      let p' : start_of a b c e + t - a * 12_622_780_800
          ≡ b * 3_155_673_600 + c * 126_230_400 + e * 31_536_000 + t =
        omega arith in
      let q : (b * 3_155_673_600 + c * 126_230_400 + e * 31_536_000 + t) / 3_155_673_600 ≡ b =
        omega arith in
      let q' : b * 3_155_673_600 + c * 126_230_400 + e * 31_536_000 + t - b * 3_155_673_600
          ≡ c * 126_230_400 + e * 31_536_000 + t =
        omega arith in
      let r : (c * 126_230_400 + e * 31_536_000 + t) / 126_230_400 ≡ c = omega arith in
      let r' : c * 126_230_400 + e * 31_536_000 + t - c * 126_230_400 ≡ e * 31_536_000 + t =
        omega arith in
      let u : (e * 31_536_000 + t) / 31_536_000 ≡ e = omega arith in
      let u' : e * 31_536_000 + t - e * 31_536_000 ≡ t = omega arith in
      rw (p, p', q, q', r, r', u, u') refl

-- A leap year is the last of four years, and the last of a hundred only if of four hundred too.
leap_cases :
    (y : ℕ) → is_leap_year (y + 1601) ≡ true → (y % 400 ≡ 399) ⊎ ((y % 4 ≡ 3) × (y % 100 / 4 < 24))
unfolding is_leap_year
leap_cases y h = ground arith

module _ (y t : ℕ) where
  -- The year and what is left of it, for a moment in the first 365 days of year 1601 + y.
  pub compute_year-seconds :
      t < 31_536_000
      → compute_year ((y * days_in_year + count_leap_years y) * seconds_in_day + t) ≡ result y t
  unfolding count_leap_years
  compute_year-seconds h =
      let s : (y * days_in_year + count_leap_years y) * seconds_in_day + t
          ≡ start_of (y / 400) (y % 400 / 100) (y % 100 / 4) (y % 4) + t =
        omega arith in
      let k : y / 400 * 400 + y % 400 / 100 * 100 + y % 100 / 4 * 4 + y % 4 ≡ y = omega arith in
      rw s (
        compute_year_parts (y / 400) (y % 400 / 100) (y % 100 / 4) (y % 4) t (omega arith)
          (omega arith) (omega arith) h
        ∙ ap (λ n. result n t) k)

  -- On the last day of a leap year it is off: it gives the first day of the year that follows.
  pub compute_year-leap_end :
      is_leap_year (y + 1601) ≡ true
      → t < seconds_in_day
      → compute_year ((y * days_in_year + count_leap_years y + 365) * seconds_in_day + t)
        ≡ result (y + 1) t
  unfolding count_leap_years
  compute_year-leap_end leap h = elim (leap_cases y leap) [
    | inl last ↦
        let s : (y * days_in_year + count_leap_years y + 365) * seconds_in_day + t
            ≡ start_of (y / 400) 4 0 0 + t =
          omega arith in
        let k : y / 400 * 400 + 4 * 100 + 0 * 4 + 0 ≡ y + 1 = omega arith in
        rw s (
          compute_year_parts (y / 400) 4 0 0 t (omega arith) (omega arith) (omega arith)
            (omega arith)
          ∙ ap (λ n. result n t) k)
    | inr (fourth, other) ↦
        let s : (y * days_in_year + count_leap_years y + 365) * seconds_in_day + t
            ≡ start_of (y / 400) (y % 400 / 100) (y % 100 / 4) 4 + t =
          omega arith in
        let k : y / 400 * 400 + y % 400 / 100 * 100 + y % 100 / 4 * 4 + 4 ≡ y + 1 = omega arith in
        rw s (
          compute_year_parts (y / 400) (y % 400 / 100) (y % 100 / 4) 4 t (omega arith) (omega arith)
            (omega arith) (omega arith)
          ∙ ap (λ n. result n t) k)
  ]
