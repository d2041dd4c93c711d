-- ===== src/Storage/Crc64/Concatenate/Powers.antt =====
-- The table `Crc64MUX2N` and the loop of `Crc64::Concatenate`.
use native.Mathlib.Nat.{pow-suc}
use azure_sdk_for_cpp.Base.{
  ℕ, zero, suc, ◌+◌, ◌*◌, ◌/◌, ◌%◌, ◌^◌, ◌<◌, ◌≡◌, refl, sym, ap, ◌∙◌, arith, ◌==◌, ==_iff, ltb,
  ltb→lt, every_below, every_below-test, true, false, if◌then◌else◌, if-false,
}
use azure_sdk_for_cpp.Storage.Crc64.Step.{step, feedback, steps, steps-add, steps-lt}
use azure_sdk_for_cpp.Storage.Crc64.Tables.{Bytes.mux2n}
use azure_sdk_for_cpp.Storage.Crc64.Concatenate.{
  vt, mul_round, mul_rounds, mul_poly, power_entry, advance,
}
use azure_sdk_for_cpp.Storage.Crc64.Concatenate.Products.{
  product, mul_poly-product, product-steps, product_one,
}

square_table :
    every_below (λ i. power_entry (suc i) == mul_poly (power_entry i) (power_entry i)) 63 ≡ true
unfolding every_below power_entry mux2n mul_poly mul_rounds mul_round vt
square_table = refl

bound_table : every_below (λ i. ltb (power_entry i) (2 ^ 64)) 64 ≡ true
unfolding every_below power_entry mux2n
bound_table = refl

power_entry-lt : (i : ℕ) → i < 64 → power_entry i < 2 ^ 64
power_entry-lt i p =
    ltb→lt _ _ (every_below-test (λ k. ltb (power_entry k) (2 ^ 64)) 64 i p bound_table)

power_entry-suc : (i : ℕ) → i < 63 → power_entry (suc i) ≡ mul_poly (power_entry i) (power_entry i)
power_entry-suc i p = (==_iff _ _).0 (
    every_below-test (λ k. power_entry (suc k) == mul_poly (power_entry k) (power_entry k)) 63 i p
      square_table)

first_entry : power_entry 0 ≡ steps 8 (2 ^ 63)
unfolding power_entry mux2n steps step feedback
first_entry = refl

steps_twice : (n u : ℕ) → steps (8 * 2 ^ n) (steps (8 * 2 ^ n) u) ≡ steps (8 * 2 ^ suc n) u
steps_twice n u =
    let e : 8 * 2 ^ suc n ≡ 8 * 2 ^ n + 8 * 2 ^ n = omega (arith, pow-suc 2 n) in
    rw e (sym (steps-add (8 * 2 ^ n) (8 * 2 ^ n) u))

-- The entry `i` moves a number over `2 ^ i` bytes.
mul_poly-power_entry :
    (i a : ℕ) → i < 64 → a < 2 ^ 64 → mul_poly a (power_entry i) ≡ steps (8 * 2 ^ i) a
mul_poly-power_entry zero a q p =
    let e : a * 2 ^ 0 ≡ a = omega arith in
    rw (mul_poly-product a (power_entry 0), first_entry, product-steps 8 64 a (2 ^ 63))
      (ap (steps 8) (ap (λ t. product 64 t (2 ^ 63)) (sym e) ∙ product_one 64 0 a (omega arith) p))
mul_poly-power_entry (suc i) a q p =
    let b = power_entry i in
    let fits = power_entry-lt i (omega arith) in
    let square = mul_poly-power_entry i b (omega arith) fits in
    let once = mul_poly-power_entry i a (omega arith) p in
    ap (mul_poly a) (power_entry-suc i (omega arith) ∙ square)
    ∙ mul_poly-product a (steps (8 * 2 ^ i) b)
    ∙ product-steps (8 * 2 ^ i) 64 a b
    ∙ ap (steps (8 * 2 ^ i)) (sym (mul_poly-product a b) ∙ once)
    ∙ steps_twice i a

-- What a digit of the length adds.
turn : ℕ → ℕ → ℕ → ℕ
turn i s r = if s % 2 == 1 then mul_poly r (power_entry i) else r

none_more : (n r : ℕ) → r ≡ steps (8 * (0 * n)) r
unfolding steps
none_more n r = let e : 8 * (0 * n) ≡ 0 = omega arith in rw e refl

turn_digit :
    (i r d : ℕ)
    → i < 64
    → r < 2 ^ 64
    → d < 2
    → (if d == 1 then mul_poly r (power_entry i) else r) ≡ steps (8 * (d * 2 ^ i)) r
turn_digit i r zero q p b = none_more (2 ^ i) r
turn_digit i r (suc zero) q p b =
    let e : 1 * 2 ^ i ≡ 2 ^ i = omega arith in rw e (mul_poly-power_entry i r q p)
turn_digit i r (suc (suc d)) q p b = absurd (omega arith)

turn-steps : (i s r : ℕ) → i < 64 → r < 2 ^ 64 → turn i s r ≡ steps (8 * (s % 2 * 2 ^ i)) r
unfolding turn
turn-steps i s r q p = turn_digit i r (s % 2) q p (omega arith)

halves_sum : (d q x : ℕ) → 8 * (d * x) + 8 * (q * (x * 2)) ≡ 8 * ((d + q * 2) * x)
halves_sum d q x = grind arith

halves : (s x : ℕ) → 8 * (s % 2 * x) + 8 * (s / 2 * (x * 2)) ≡ 8 * (s * x)
halves s x =
    let e : s % 2 + s / 2 * 2 ≡ s = omega arith in
    halves_sum (s % 2) (s / 2) x ∙ ap (λ t. 8 * (t * x)) e

-- The loop moves the value over the bytes of the length.
pub advance-steps :
    (fuel i s r : ℕ)
    → fuel + i ≡ 64
    → s < 2 ^ fuel
    → r < 2 ^ 64
    → advance fuel i s r ≡ steps (8 * (s * 2 ^ i)) r
unfolding advance turn
advance-steps zero i zero r e q p = none_more (2 ^ i) r
advance-steps zero i (suc s) r e q p = absurd (omega arith)
advance-steps (suc fuel) i zero r e q p = none_more (2 ^ i) r
advance-steps (suc fuel) i (suc s) r e q p =
    let now = turn-steps i (suc s) r (omega arith) p in
    let fits : turn i (suc s) r < 2 ^ 64 = rw now (steps-lt (8 * (suc s % 2 * 2 ^ i)) r p) in
    let count : 8 * (suc s % 2 * 2 ^ i) + 8 * (suc s / 2 * 2 ^ suc i) ≡ 8 * (suc s * 2 ^ i) =
      rw (pow-suc 2 i) (halves (suc s) (2 ^ i)) in
    let more : (suc s == 0) ≡ false = ground arith in
    if-false (suc s == 0) r (advance fuel (suc i) (suc s / 2) (turn i (suc s) r)) more
    ∙ advance-steps fuel (suc i) (suc s / 2) (turn i (suc s) r) (omega arith)
        (omega (arith, pow-suc 2 fuel)) fits
    ∙ ap (steps (8 * (suc s / 2 * 2 ^ suc i))) now
    ∙ sym (steps-add (8 * (suc s % 2 * 2 ^ i)) (8 * (suc s / 2 * 2 ^ suc i)) r)
    ∙ ap (λ n. steps n r) count
