-- ===== src/Storage/Crc64/Xor.antt =====
-- `^` of unsigned integers. The native operation means a recursion on binary digits with fuel;
-- the laws follow digit by digit.
use Prim.Native.Nat.{
  ℕ, zero, suc, ◌+◌, ◌*◌, ◌/◌, ◌%◌, ◌^◌, ◌≤◌, ◌<◌, bit_xor, differ, bit_xor-bitwise,
}
use native.Mathlib.Nat.{pow-suc, div-div-eq-div-mul}
use azure_sdk_for_cpp.Base.Digits.{bitwise_digit}
use azure_sdk_for_cpp.Base.{◌≡◌, refl, sym, ap, ◌∙◌, arith}

infixl 60 ◌⊕◌
abbrev pub ◌⊕◌ : ℕ → ℕ → ℕ
a ⊕ b = bit_xor a b

differ_digits : (x y : ℕ) → x < 2 → y < 2 → differ x y ≡ (x + y) % 2
differ_digits zero y p q = omega arith
differ_digits (suc zero) zero p q = refl
differ_digits (suc zero) (suc zero) p q = refl
differ_digits (suc zero) (suc (suc y)) p q = absurd (omega arith)
differ_digits (suc (suc x)) y p q = absurd (omega arith)

-- The lowest digit and the others.
xor_step : (a b : ℕ) → a ⊕ b ≡ (a / 2 ⊕ b / 2) * 2 + (a + b) % 2
xor_step zero b = simp bit_xor-bitwise (omega arith)
xor_step (suc a) b =
    let d = differ_digits (suc a % 2) (b % 2) (omega arith) (omega arith) in
    simp bit_xor-bitwise (omega (arith, bitwise_digit (λ y. y) differ (suc a) (omega arith) b, d))

pub xor_half : (a b : ℕ) → (a ⊕ b) / 2 ≡ a / 2 ⊕ b / 2
xor_half a b = omega (arith, xor_step a b)

pub xor_odd : (a b : ℕ) → (a ⊕ b) % 2 ≡ (a + b) % 2
xor_odd a b = omega (arith, xor_step a b)

pub zero-xor : (b : ℕ) → 0 ⊕ b ≡ b
zero-xor b = bit_xor-bitwise 0 b

xor_comm_fuel : (n a b : ℕ) → a ≤ n → b ≤ n → a ⊕ b ≡ b ⊕ a
xor_comm_fuel zero zero zero p q = refl
xor_comm_fuel zero (suc a) b p q = absurd (omega arith)
xor_comm_fuel zero zero (suc b) p q = absurd (omega arith)
xor_comm_fuel (suc n) a b p q =
    omega (
      arith,
      xor_step a b,
      xor_step b a,
      xor_comm_fuel n (a / 2) (b / 2) (omega arith) (omega arith),
    )

pub xor_comm : (a b : ℕ) → a ⊕ b ≡ b ⊕ a
xor_comm a b = xor_comm_fuel (a + b) a b (omega arith) (omega arith)

pub xor-zero : (a : ℕ) → a ⊕ 0 ≡ a
xor-zero a = xor_comm a 0 ∙ zero-xor a

xor_assoc_fuel : (n a b c : ℕ) → a ≤ n → b ≤ n → c ≤ n → (a ⊕ b) ⊕ c ≡ a ⊕ (b ⊕ c)
xor_assoc_fuel zero zero zero zero p q r = refl
xor_assoc_fuel zero (suc a) b c p q r = absurd (omega arith)
xor_assoc_fuel zero zero (suc b) c p q r = absurd (omega arith)
xor_assoc_fuel zero zero zero (suc c) p q r = absurd (omega arith)
xor_assoc_fuel (suc n) a b c p q r =
    let ih = xor_assoc_fuel n (a / 2) (b / 2) (c / 2) (omega arith) (omega arith) (omega arith) in
    let u : (a ⊕ b) / 2 ⊕ c / 2 ≡ a / 2 ⊕ (b ⊕ c) / 2 = rw (xor_half a b, xor_half b c) ih in
    omega (arith, u, xor_step (a ⊕ b) c, xor_step a (b ⊕ c), xor_odd a b, xor_odd b c)

pub xor_assoc : (a b c : ℕ) → (a ⊕ b) ⊕ c ≡ a ⊕ (b ⊕ c)
xor_assoc a b c = xor_assoc_fuel (a + b + c) a b c (omega arith) (omega arith) (omega arith)

xor_self_fuel : (n a : ℕ) → a ≤ n → a ⊕ a ≡ 0
xor_self_fuel zero zero p = refl
xor_self_fuel zero (suc a) p = absurd (omega arith)
xor_self_fuel (suc n) a p = omega (arith, xor_step a a, xor_self_fuel n (a / 2) (omega arith))

pub xor_self : (a : ℕ) → a ⊕ a ≡ 0
xor_self a = xor_self_fuel a a (omega arith)

pub xor_twice : (a b : ℕ) → (a ⊕ b) ⊕ b ≡ a
xor_twice a b = xor_assoc a b b ∙ rw (xor_self b) (xor-zero a)

pub xor_middle : (a b c : ℕ) → (a ⊕ b) ⊕ c ≡ (a ⊕ c) ⊕ b
xor_middle a b c = xor_assoc a b c ∙ rw (xor_comm b c) (sym (xor_assoc a c b))

pub xor_swap : (a b c d : ℕ) → (a ⊕ b) ⊕ (c ⊕ d) ≡ (a ⊕ c) ⊕ (b ⊕ d)
xor_swap a b c d = sym (xor_assoc (a ⊕ b) c d) ∙ rw (xor_middle a b c) (xor_assoc (a ⊕ c) b d)

two_pow-suc : (q k : ℕ) → q * 2 ^ suc k ≡ 2 * (q * 2 ^ k)
two_pow-suc q k = omega (arith, ap (λ (t : ℕ). q * t) (pow-suc 2 k))

-- Digits at other places are added.
pub xor_fields : (k q r : ℕ) → r < 2 ^ k → (q * 2 ^ k) ⊕ r ≡ q * 2 ^ k + r
xor_fields zero q r fits = ground (arith, xor-zero q)
xor_fields (suc k) q r fits =
    ground
      (arith, xor_step (q * 2 ^ suc k) r, two_pow-suc q k, xor_fields k q (r / 2) (omega arith))

pub xor-lt : (k a b : ℕ) → a < 2 ^ k → b < 2 ^ k → a ⊕ b < 2 ^ k
xor-lt zero zero zero p q = omega arith
xor-lt zero (suc a) b p q = absurd (omega arith)
xor-lt zero zero (suc b) p q = absurd (omega arith)
xor-lt (suc k) a b p q = ground (
  arith,
  xor_step a b,
  pow-suc 2 k,
  xor-lt k (a / 2) (b / 2) (omega (arith, pow-suc 2 k)) (omega (arith, pow-suc 2 k)),
)

half_pow : (k x : ℕ) → x / 2 ^ suc k ≡ x / 2 / 2 ^ k
half_pow k x =
    let e : 2 ^ suc k ≡ 2 * 2 ^ k = omega (arith, pow-suc 2 k) in
    ap (λ (t : ℕ). x / t) e ∙ sym (div-div-eq-div-mul x 2 (2 ^ k))

pub xor_high : (k a b : ℕ) → (a ⊕ b) / 2 ^ k ≡ a / 2 ^ k ⊕ b / 2 ^ k
xor_high zero a b =
    let e : (x : ℕ) → x / 2 ^ 0 ≡ x = λ x. omega arith in rw (e (a ⊕ b), e a, e b) refl
xor_high (suc k) a b =
    rw (half_pow k (a ⊕ b), half_pow k a, half_pow k b, xor_half a b) (xor_high k (a / 2) (b / 2))
