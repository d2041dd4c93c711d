-- ===== src/Storage/Crc64/Step.antt =====
-- The reference: the remainder of a polynomial over two elements by `Crc64Poly`, digit by digit. The
-- lowest digit of a number is the highest coefficient.
use native.Mathlib.Nat.{pow-suc, one-le-pow}
use azure_sdk_for_cpp.Base.{
  ℕ, zero, suc, ◌+◌, ◌*◌, ◌/◌, ◌%◌, ◌^◌, ◌<◌, ◌≡◌, refl, sym, ap, ◌∙◌, arith, inl, inr, ◌⊎◌,
}
use azure_sdk_for_cpp.Storage.Crc64.Xor.{
  ◌⊕◌, xor_half, xor_odd, xor_swap, xor-zero, xor-lt, xor_fields,
}

abbrev pub poly : ℕ
poly = 0x9A6C9329AC4BC9B5

-- The polynomial, if a one goes out.
unfoldable pub feedback : ℕ → ℕ
feedback u = u % 2 * poly

-- One digit: a shift, with the polynomial where a one goes out.
unfoldable pub step : ℕ → ℕ
step u = u / 2 ⊕ feedback u

unfoldable pub steps : ℕ → ℕ → ℕ
steps zero u = u
steps (suc n) u = steps n (step u)

feedback_even : (u : ℕ) → u % 2 ≡ 0 → feedback u ≡ 0
unfolding feedback
feedback_even u e = rw e refl

feedback_odd : (u : ℕ) → u % 2 ≡ 1 → feedback u ≡ poly
unfolding feedback
feedback_odd u e = rw e refl

digit : (x : ℕ) → x < 2 → (x ≡ 0) ⊎ (x ≡ 1)
digit zero p = inl refl
digit (suc zero) p = inr refl
digit (suc (suc x)) p = absurd (omega arith)

parity : (u : ℕ) → (u % 2 ≡ 0) ⊎ (u % 2 ≡ 1)
parity u = digit (u % 2) (omega arith)

feedback_pair :
    (a b : ℕ)
    → (a % 2 ≡ 0) ⊎ (a % 2 ≡ 1)
    → (b % 2 ≡ 0) ⊎ (b % 2 ≡ 1)
    → feedback (a ⊕ b) ≡ feedback a ⊕ feedback b
feedback_pair a b (inl p) (inl q) =
    rw (feedback_even a p, feedback_even b q) (feedback_even (a ⊕ b) (omega (arith, xor_odd a b)))
feedback_pair a b (inl p) (inr q) =
    rw (feedback_even a p, feedback_odd b q) (feedback_odd (a ⊕ b) (omega (arith, xor_odd a b)))
feedback_pair a b (inr p) (inl q) =
    rw (feedback_odd a p, feedback_even b q) (feedback_odd (a ⊕ b) (omega (arith, xor_odd a b)))
feedback_pair a b (inr p) (inr q) =
    rw (feedback_odd a p, feedback_odd b q) (feedback_even (a ⊕ b) (omega (arith, xor_odd a b)))

feedback-xor : (a b : ℕ) → feedback (a ⊕ b) ≡ feedback a ⊕ feedback b
feedback-xor a b = feedback_pair a b (parity a) (parity b)

pub step-xor : (a b : ℕ) → step (a ⊕ b) ≡ step a ⊕ step b
unfolding step
step-xor a b =
    rw (xor_half a b, feedback-xor a b) (xor_swap (a / 2) (b / 2) (feedback a) (feedback b))

pub steps-xor : (n a b : ℕ) → steps n (a ⊕ b) ≡ steps n a ⊕ steps n b
unfolding steps
steps-xor zero a b = refl
steps-xor (suc n) a b = rw (step-xor a b) (steps-xor n (step a) (step b))

pub steps-add : (m n u : ℕ) → steps (m + n) u ≡ steps n (steps m u)
unfolding steps
steps-add zero n u = let e : 0 + n ≡ n = omega arith in rw e refl
steps-add (suc m) n u =
    let e : suc m + n ≡ suc (m + n) = omega arith in rw e (steps-add m n (step u))

pub step-steps : (n u : ℕ) → step (steps n u) ≡ steps n (step u)
unfolding steps
step-steps zero u = refl
step-steps (suc n) u = step-steps n (step u)

pub steps-zero : (n : ℕ) → steps n 0 ≡ 0
unfolding steps step feedback
steps-zero zero = refl
steps-zero (suc n) = steps-zero n

pub step_double : (q : ℕ) → step (2 * q) ≡ q
unfolding step
step_double q =
    let e : 2 * q / 2 ≡ q = omega arith in rw (e, feedback_even (2 * q) (omega arith)) (xor-zero q)

-- The digits above the lowest `k` are only moved.
pub steps_shift : (k q : ℕ) → steps k (q * 2 ^ k) ≡ q
unfolding steps
steps_shift zero q = omega arith
steps_shift (suc k) q =
    let e : q * 2 ^ suc k ≡ 2 * (q * 2 ^ k) = omega (arith, ap (λ (t : ℕ). q * t) (pow-suc 2 k)) in
    rw (e, step_double (q * 2 ^ k)) (steps_shift k q)

pub steps_fields : (k q r : ℕ) → r < 2 ^ k → steps k (q * 2 ^ k + r) ≡ q ⊕ steps k r
steps_fields k q r fits =
    ap (steps k) (sym (xor_fields k q r fits))
    ∙ steps-xor k (q * 2 ^ k) r
    ∙ ap (λ t. t ⊕ steps k r) (steps_shift k q)

pub steps_split : (k u : ℕ) → steps k u ≡ u / 2 ^ k ⊕ steps k (u % 2 ^ k)
steps_split k u =
    let fits : u % 2 ^ k < 2 ^ k = ground (arith, one-le-pow k 2) in
    let e : u / 2 ^ k * 2 ^ k + u % 2 ^ k ≡ u = ground arith in
    ap (steps k) (sym e) ∙ steps_fields k (u / 2 ^ k) (u % 2 ^ k) fits

step-lt : (u : ℕ) → u < 2 ^ 64 → step u < 2 ^ 64
unfolding step
step-lt u p = elim (parity u) [
  | inl e ↦ rw (feedback_even u e) (xor-lt 64 (u / 2) 0 (omega arith) (omega arith))
  | inr e ↦ rw (feedback_odd u e) (xor-lt 64 (u / 2) poly (omega arith) (omega arith))
]

pub steps-lt : (n u : ℕ) → u < 2 ^ 64 → steps n u < 2 ^ 64
unfolding steps
steps-lt zero u p = p
steps-lt (suc n) u p = steps-lt n (step u) (step-lt u p)
