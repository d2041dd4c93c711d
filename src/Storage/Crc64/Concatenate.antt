-- ===== src/Storage/Crc64/Concatenate.antt =====
-- `Crc64MulPoly`, `Crc64::Concatenate` and `Crc64::Digest` of crypt.cpp. The argument of
-- `Concatenate` is another object than the one it is called on.
mod Products
mod Powers
pub mod Zeros
pub mod Digest
mod Tests
use azure_sdk_for_cpp.Base.{
  ℕ, zero, suc, ◌+◌, ◌*◌, ◌/◌, ◌%◌, ◌^◌, List, [], ◌∷◌, if◌then◌else◌, ◌==◌, Bytes, get_or,
}
use azure_sdk_for_cpp.Storage.Crc64.Xor.{◌⊕◌}
use azure_sdk_for_cpp.Storage.Crc64.Step.{poly}
use azure_sdk_for_cpp.Storage.Crc64.Tables.{Bytes.mux2n}
use azure_sdk_for_cpp.Storage.Crc64.Update.{Crc64, update}

-- `p2`.
abbrev pub poly2 : ℕ
poly2 = poly / 2 ⊕ poly * (poly % 2)

-- `vt[i]`.
unfoldable pub vt : ℕ → ℕ
vt i = get_or (0 ∷ poly2 ∷ poly ∷ (poly ⊕ poly2) ∷ []) i 0

-- `vr` and `vb`.
pub record Product : Type 0 where
  pub vr0 : ℕ
  pub vr1 : ℕ
  pub vb0 : ℕ
  pub vb1 : ℕ

-- The body of the outer loop: both rounds of the inner one.
unfoldable pub mul_round : ℕ → Product → Product
mul_round a p = record {
  vr0 = p.vr0 ⊕ p.vb0 * (a / 2 ^ 62 % 2);
  vr1 = p.vr1 ⊕ p.vb1 * (a / 2 ^ 63 % 2);
  vb0 = p.vb0 / 4 ⊕ vt (p.vb0 % 4);
  vb1 = p.vb1 / 4 ⊕ vt (p.vb1 % 4);
}

-- The loop, with the rounds that are left.
unfoldable pub mul_rounds : ℕ → ℕ → Product → Product
mul_rounds zero a p = p
mul_rounds (suc n) a p = mul_rounds n (a * 4 % 2 ^ 64) (mul_round a p)

unfoldable pub mul_poly : ℕ → ℕ → ℕ
mul_poly a b =
    let p = mul_rounds 32 a (record { vr0 = 0; vr1 = 0; vb0 = b / 2 ⊕ vt (b % 2 * 2); vb1 = b }) in
    p.vr0 ⊕ p.vr1

-- `Crc64MUX2N[i]`.
unfoldable pub power_entry : ℕ → ℕ
power_entry i = get_or mux2n i 0

-- The loop over the digits of the length `s`, which are 64 at most.
unfoldable pub advance : ℕ → ℕ → ℕ → ℕ → ℕ
advance zero i s r = r
advance (suc fuel) i s r =
    let rest =
      advance fuel (suc i) (s / 2) (if s % 2 == 1 then mul_poly r (power_entry i) else r) in
    if s == 0 then r else rest

unfoldable pub concatenate : Crc64 → Crc64 → Crc64
concatenate other crc = record {
  context = advance 64 0 other.length crc.context ⊕ other.context;
  length = (crc.length + other.length) % 2 ^ 64;
}

-- The bytes from `i` on: `binary[i] = (m_context >> (8 * i)) & 0xff`.
unfoldable pub digest_bytes : ℕ → ℕ → ℕ → Bytes
digest_bytes zero i u = []
digest_bytes (suc n) i u = u / 2 ^ (8 * i) % 256 ∷ digest_bytes n (suc i) u

unfoldable pub digest : Crc64 → Bytes
digest crc = digest_bytes 8 0 crc.context

abbrev pub fresh : Crc64
fresh = record { context = 0; length = 0 }

unfoldable pub hash : Bytes → Bytes
hash bytes = digest (update bytes fresh)
