-- ===== src/Storage/Crc64/Concatenate/Products.antt =====
-- The product that `Crc64MulPoly` takes two digits at a time, and a digit at a time.
use native.Mathlib.Nat.{pow-suc, mul-add-mod_self_right, mul_comm, one-le-pow, mul-div-mul_right}
use azure_sdk_for_cpp.Base.{
  ℕ, zero, suc, ◌+◌, ◌*◌, ◌/◌, ◌%◌, ◌^◌, ◌<◌, ◌≡◌, refl, sym, ap, ◌∙◌, arith, ◌==◌, ==_iff,
  every_below, every_below-test, true,
}
use azure_sdk_for_cpp.Storage.Crc64.Xor.{
  ◌⊕◌, xor_assoc, xor_comm, xor_swap, xor-zero, zero-xor, xor_fields,
}
use azure_sdk_for_cpp.Storage.Crc64.Step.{
  step, feedback, steps, step-xor, step_double, steps_split, steps-zero,
}
use azure_sdk_for_cpp.Storage.Crc64.Concatenate.{vt, Product, mul_round, mul_rounds, mul_poly}

-- The product, the highest digit of `a` first.
unfoldable pub product : ℕ → ℕ → ℕ → ℕ
product zero a b = 0
product (suc n) a b = b * (a / 2 ^ 63 % 2) ⊕ product n (a * 2 % 2 ^ 64) (step b)

one_table : every_below (λ x. vt (x * 2) == steps 1 x) 2 ≡ true
unfolding every_below vt steps step feedback
one_table = refl

two_table : every_below (λ x. vt x == steps 2 x) 4 ≡ true
unfolding every_below vt steps step feedback
two_table = refl

step-vt : (b : ℕ) → b / 2 ⊕ vt (b % 2 * 2) ≡ step b
unfolding steps
step-vt b =
    let e =
      (==_iff _ _).0
        (every_below-test (λ x. vt (x * 2) == steps 1 x) 2 (b % 2) (omega arith) one_table) in
    ap (λ t. b / 2 ⊕ t) e ∙ sym (steps_split 1 b)

step_two-vt : (b : ℕ) → b / 4 ⊕ vt (b % 4) ≡ step (step b)
unfolding steps
step_two-vt b =
    let e =
      (==_iff _ _).0
        (every_below-test (λ x. vt x == steps 2 x) 4 (b % 4) (omega arith) two_table) in
    ap (λ t. b / 4 ⊕ t) e ∙ sym (steps_split 2 b)

total : Product → ℕ
total p = p.vr0 ⊕ p.vr1

shuffle : (r s x y p : ℕ) → (r ⊕ x) ⊕ (s ⊕ y) ⊕ p ≡ r ⊕ s ⊕ (y ⊕ (x ⊕ p))
shuffle r s x y p =
    rw (xor_swap r x s y, xor_assoc (r ⊕ s) (x ⊕ y) p, xor_comm x y, xor_assoc y x p) refl

mul_round-step :
    (a r s b : ℕ)
    → mul_round a (record { vr0 = r; vr1 = s; vb0 = step b; vb1 = b }) ≡ record {
      vr0 = r ⊕ step b * (a / 2 ^ 62 % 2);
      vr1 = s ⊕ b * (a / 2 ^ 63 % 2);
      vb0 = step (step (step b));
      vb1 = step (step b);
    }
unfolding mul_round
mul_round-step a r s b = rw (step_two-vt (step b), step_two-vt b) refl

-- A round takes two digits.
mul_rounds-product :
    (n a r0 r1 b : ℕ)
    → total (mul_rounds n a (record { vr0 = r0; vr1 = r1; vb0 = step b; vb1 = b }))
      ≡ (r0 ⊕ r1) ⊕ product (2 * n) a b
unfolding total mul_rounds mul_round product
mul_rounds-product zero a r0 r1 b = sym (xor-zero (r0 ⊕ r1))
mul_rounds-product (suc n) a r0 r1 b =
    let e : 2 * suc n ≡ suc (suc (2 * n)) = omega arith in
    let e₂ : a * 2 % 2 ^ 64 * 2 % 2 ^ 64 ≡ a * 4 % 2 ^ 64 = omega arith in
    let e₃ : a * 2 % 2 ^ 64 / 2 ^ 63 % 2 ≡ a / 2 ^ 62 % 2 = omega arith in
    let low = step b * (a / 2 ^ 62 % 2) in
    let high = b * (a / 2 ^ 63 % 2) in
    ap (λ q. total (mul_rounds n (a * 4 % 2 ^ 64) q)) (mul_round-step a r0 r1 b)
    ∙ mul_rounds-product n (a * 4 % 2 ^ 64) (r0 ⊕ low) (r1 ⊕ high) (step (step b))
    ∙ shuffle r0 r1 low high (product (2 * n) (a * 4 % 2 ^ 64) (step (step b)))
    ∙ rw (e, e₂, e₃) refl

pub mul_poly-product : (a b : ℕ) → mul_poly a b ≡ product 64 a b
unfolding mul_poly total
mul_poly-product a b = rw (step-vt b) (mul_rounds-product 32 a 0 0 b ∙ zero-xor (product 64 a b))

digit-xor : (d b c : ℕ) → d < 2 → (b ⊕ c) * d ≡ b * d ⊕ c * d
digit-xor zero b c p =
    let e : (x : ℕ) → x * 0 ≡ 0 = λ x. omega arith in rw (e (b ⊕ c), e b, e c) refl
digit-xor (suc zero) b c p =
    let e : (x : ℕ) → x * 1 ≡ x = λ x. omega arith in rw (e (b ⊕ c), e b, e c) refl
digit-xor (suc (suc d)) b c p = absurd (omega arith)

step-digit : (d b : ℕ) → d < 2 → step b * d ≡ step (b * d)
unfolding step feedback
step-digit zero b p = let e : (x : ℕ) → x * 0 ≡ 0 = λ x. omega arith in rw (e (step b), e b) refl
step-digit (suc zero) b p =
    let e : (x : ℕ) → x * 1 ≡ x = λ x. omega arith in rw (e (step b), e b) refl
step-digit (suc (suc d)) b p = absurd (omega arith)

pub product-xor : (n a b c : ℕ) → product n a (b ⊕ c) ≡ product n a b ⊕ product n a c
unfolding product
product-xor zero a b c = refl
product-xor (suc n) a b c =
    rw
      (
        digit-xor (a / 2 ^ 63 % 2) b c (omega arith),
        step-xor b c,
        product-xor n (a * 2 % 2 ^ 64) (step b) (step c),
      )
      (xor_swap _ _ _ _)

pub product-step : (n a b : ℕ) → product n a (step b) ≡ step (product n a b)
unfolding product steps
product-step zero a b = sym (steps-zero 1)
product-step (suc n) a b =
    rw (step-digit (a / 2 ^ 63 % 2) b (omega arith), product-step n (a * 2 % 2 ^ 64) (step b))
      (sym (step-xor _ _))

pub product-steps : (k n a b : ℕ) → product n a (steps k b) ≡ steps k (product n a b)
unfolding steps
product-steps zero n a b = refl
product-steps (suc k) n a b = product-steps k n a (step b) ∙ ap (steps k) (product-step n a b)

pub two_pow-add : (n m : ℕ) → 2 ^ n * 2 ^ m ≡ 2 ^ (n + m)
two_pow-add zero m = let e : 0 + m ≡ m = omega arith in rw e (omega arith)
two_pow-add (suc n) m =
    let e : suc n + m ≡ suc (n + m) = omega arith in
    rw (e, pow-suc 2 n, pow-suc 2 (n + m), sym (two_pow-add n m)) (grind arith)

two_pow : (n m k : ℕ) → n + m ≡ k → 2 ^ n * 2 ^ m ≡ 2 ^ k
two_pow n m k e = two_pow-add n m ∙ ap (λ (t : ℕ). 2 ^ t) e

-- The highest of `suc n` digits, moved to the top.
top_digit : (n m a : ℕ) → suc n + m ≡ 64 → a * 2 ^ m / 2 ^ 63 ≡ a / 2 ^ n
top_digit n m a e =
    rw (sym (two_pow n m 63 (omega arith)))
      (mul-div-mul_right a (2 ^ n) (one-le-pow m 2 (omega arith)))

distribute : (q x r y : ℕ) → (q * x + r) * y * 2 ≡ q * (x * (y * 2)) + r * (y * 2)
distribute q x r y = grind arith

other_digits : (n m a : ℕ) → suc n + m ≡ 64 → a * 2 ^ m * 2 % 2 ^ 64 ≡ a % 2 ^ n * 2 ^ suc m
other_digits n m a e =
    let q = a / 2 ^ n in
    let r = a % 2 ^ n in
    let all = two_pow n (suc m) 64 (omega arith) in
    let e₁ : a ≡ q * 2 ^ n + r = grind (arith, one-le-pow n 2 (omega arith)) in
    let next : 2 ^ m * 2 ≡ 2 ^ suc m = omega (arith, pow-suc 2 m) in
    let e₂ : a * 2 ^ m * 2 ≡ q * 2 ^ 64 + r * 2 ^ suc m =
      ap (λ t. t * 2 ^ m * 2) e₁ ∙ distribute q (2 ^ n) r (2 ^ m) ∙ rw (next, all) refl in
    let fits : r * 2 ^ suc m < 2 ^ 64 =
      grind (arith, all, one-le-pow n 2 (omega arith), one-le-pow (suc m) 2 (omega arith)) in
    rw e₂ (mul-add-mod_self_right q (2 ^ 64) (r * 2 ^ suc m) ∙ omega arith)

-- The highest digit and the others.
product_one_digit :
    (n m a : ℕ)
    → suc n + m ≡ 64
    → a < 2 ^ suc n
    → product n (a % 2 ^ n * 2 ^ suc m) (step (2 ^ n)) ≡ a % 2 ^ n
    → product (suc n) (a * 2 ^ m) (2 ^ suc n / 2) ≡ a
unfolding product
product_one_digit n m a e p ih =
    let half : 2 ^ suc n / 2 ≡ 2 ^ n = omega (arith, pow-suc 2 n) in
    let one : a / 2 ^ n % 2 ≡ a / 2 ^ n =
      grind (arith, pow-suc 2 n, one-le-pow n 2 (omega arith)) in
    let e₂ : a / 2 ^ n * 2 ^ n + a % 2 ^ n ≡ a = grind (arith, one-le-pow n 2 (omega arith)) in
    rw (half, top_digit n m a e, other_digits n m a e, ih, one, mul_comm (2 ^ n) (a / 2 ^ n))
      (xor_fields n (a / 2 ^ n) (a % 2 ^ n) (grind (arith, one-le-pow n 2 (omega arith))) ∙ e₂)

-- The product with the number that stands for one.
pub product_one : (n m a : ℕ) → n + m ≡ 64 → a < 2 ^ n → product n (a * 2 ^ m) (2 ^ n / 2) ≡ a
unfolding product
product_one zero m a e p = omega arith
product_one (suc zero) m a e p = product_one_digit 0 m a e p (omega arith)
product_one (suc (suc n)) m a e p =
    let q : a % 2 ^ suc n < 2 ^ suc n = ground (arith, one-le-pow (suc n) 2) in
    let two : step (2 ^ suc n) ≡ 2 ^ suc n / 2 =
      let e₂ : 2 ^ suc n ≡ 2 * 2 ^ n = omega (arith, pow-suc 2 n) in
      rw e₂ (step_double (2 ^ n) ∙ omega arith) in
    product_one_digit (suc n) m a e p
      (rw two (product_one (suc n) (suc m) (a % 2 ^ suc n) (omega arith) q))
