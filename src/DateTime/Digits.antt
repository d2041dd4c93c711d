-- ===== src/DateTime/Digits.antt =====
-- Printed decimal digits, read as `Parse` of datetime.cpp reads them.
use azure_sdk_for_cpp.Base.{ℕ, ◌+◌, ◌-◌, ◌*◌, ◌/◌, ◌%◌, ◌≤◌, ◌<◌, ◌≡◌, refl, true, arith, ◌&&◌}
use azure_sdk_for_cpp.DateTime.Format.{digit}
use azure_sdk_for_cpp.DateTime.Parse.{is_digit}

pub is_digit-digit : (n v : ℕ) → v % 10 ≤ n → is_digit n (digit v) ≡ true
unfolding is_digit
is_digit-digit n v h = ground arith

pub two_digits :
    (n v : ℕ) → v / 10 ≤ n → (is_digit n (digit (v / 10)) && is_digit 9 (digit v)) ≡ true
two_digits n v h =
    rw (is_digit-digit n (v / 10) (omega arith), is_digit-digit 9 v (omega arith)) refl

pub double_digit : (v : ℕ) → v < 100 → (digit (v / 10) - 48) * 10 + (digit v - 48) ≡ v
double_digit v h = omega arith

pub four_digit :
    (v : ℕ)
    → v < 10000
    → (digit (v / 1000) - 48) * 1000
        + (digit (v / 100) - 48) * 100
        + (digit (v / 10) - 48) * 10
        + (digit v - 48)
      ≡ v
four_digit v h = omega arith
