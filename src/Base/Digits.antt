-- ===== src/Base/Digits.antt =====
-- The native operations on binary digits are a recursion with fuel. Here the fuel is dropped.
use Prim.Native.Nat.{
  ℕ, zero, suc, ◌+◌, ◌-◌, ◌*◌, ◌/◌, ◌%◌, ◌^◌, ◌≤◌, ◌<◌, min, digits, bitwise, bit_and,
  bit_and-bitwise,
}
use native.Mathlib.Nat.{pow-suc, div-div-eq-div-mul}
use mathlib.Core.Path.{◌≡◌, refl, sym, ap, ◌∙◌}
use native.Mathlib.Omega.{arith}

module _ (z : ℕ → ℕ) (f : ℕ → ℕ → ℕ) where
  -- With as much fuel as the number says, one more makes no difference.
  spare_fuel : (n a b : ℕ) → a ≤ n → digits z f (suc n) a b ≡ digits z f n a b
  spare_fuel zero zero b le = refl
  spare_fuel zero (suc a) b le = absurd (omega arith)
  spare_fuel (suc n) zero b le = refl
  spare_fuel (suc n) (suc a) b le =
      ap (λ (t : ℕ). t * 2 + f (suc a % 2) (b % 2)) (spare_fuel n (suc a / 2) (b / 2) (omega arith))

  more_fuel : (k n a b : ℕ) → a ≤ n → digits z f (n + k) a b ≡ digits z f n a b
  more_fuel zero n a b le = let e : n + 0 ≡ n = omega arith in rw e refl
  more_fuel (suc k) n a b le =
      let e : n + suc k ≡ suc (n + k) = omega arith in
      rw e (spare_fuel (n + k) a b (omega arith) ∙ more_fuel k n a b le)

  -- The lowest digit and the others, for a number above 0.
  pub bitwise_digit :
      (a : ℕ)
      → 0 < a
      → (b : ℕ) → bitwise z f a b ≡ f (a % 2) (b % 2) + 2 * bitwise z f (a / 2) (b / 2)
  bitwise_digit zero positive b = absurd (omega arith)
  bitwise_digit (suc a) positive b =
      let e : a ≡ suc a / 2 + (a - suc a / 2) = omega arith in
      let half : digits z f a (suc a / 2) (b / 2) ≡ digits z f (suc a / 2) (suc a / 2) (b / 2) =
        ap (λ (t : ℕ). digits z f t (suc a / 2) (b / 2)) e
        ∙ more_fuel (a - suc a / 2) (suc a / 2) (suc a / 2) (b / 2) (omega arith) in
      omega (arith, half)

and_digit : (b a : ℕ) → bit_and a b ≡ min (a % 2) (b % 2) + 2 * bit_and (a / 2) (b / 2)
and_digit b zero = simp bit_and-bitwise (omega arith)
and_digit b (suc a) = simp bit_and-bitwise (bitwise_digit (λ _. zero) min (suc a) (omega arith) b)

nothing_in_common : (n a : ℕ) → a ≤ n → bit_and a 0 ≡ 0
nothing_in_common zero zero le = refl
nothing_in_common zero (suc a) le = absurd (omega arith)
nothing_in_common (suc n) a le =
    omega (arith, and_digit 0 a, nothing_in_common n (a / 2) (omega arith))

double_digit : (d x r : ℕ) → min r 0 + 2 * (d * x) ≡ d * (2 * x)
double_digit d x r =
    let e : min r 0 ≡ 0 = omega arith in
    let e₂ : 2 * (d * x) ≡ d * (2 * x) = grind arith in rw e (omega (arith, e₂))

-- The digit of a flag.
pub bit_and-power : (k a : ℕ) → bit_and a (2 ^ k) ≡ a / 2 ^ k % 2 * 2 ^ k
bit_and-power zero a = omega (arith, and_digit 1 a, nothing_in_common (a / 2) (a / 2) (omega arith))
bit_and-power (suc k) a =
    let e : 2 ^ suc k ≡ 2 * 2 ^ k = omega (arith, pow-suc 2 k) in
    let half : 2 * 2 ^ k / 2 ≡ 2 ^ k = omega arith in
    let even : 2 * 2 ^ k % 2 ≡ 0 = omega arith in
    rw
      (
        e,
        and_digit (2 * 2 ^ k) a,
        half,
        even,
        bit_and-power k (a / 2),
        sym (div-div-eq-div-mul a 2 (2 ^ k)),
      )
      (double_digit (a / 2 / 2 ^ k % 2) (2 ^ k) (a % 2))
