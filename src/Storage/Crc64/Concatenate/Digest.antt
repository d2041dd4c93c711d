-- ===== src/Storage/Crc64/Concatenate/Digest.antt =====
-- `Crc64::Digest` and `Crc64::Hash`.
use native.Mathlib.Nat.{pow-suc, div-div-eq-div-mul}
use azure_sdk_for_cpp.Base.{
  ℕ, zero, suc, ◌+◌, ◌*◌, ◌/◌, ◌^◌, ◌<◌, ◌≡◌, refl, sym, ap, ◌∙◌, Bytes, AreBytes, length, arith,
}
use azure_sdk_for_cpp.Storage.Crc64.Xor.{◌⊕◌}
use azure_sdk_for_cpp.Storage.Crc64.Update.{ones, update, word}
use azure_sdk_for_cpp.Storage.Crc64.Update.Reference.{crc_bytes}
use azure_sdk_for_cpp.Storage.Crc64.Update.Equivalence.{update-crc_bytes, update-Fits}
use azure_sdk_for_cpp.Storage.Crc64.Concatenate.{digest, digest_bytes, fresh, hash}
use azure_sdk_for_cpp.Storage.Crc64.Concatenate.Products.{two_pow-add}
use azure_sdk_for_cpp.Storage.Crc64.Concatenate.Zeros.{fresh-Fits}

digest_bytes-AreBytes : (n i u : ℕ) → AreBytes (digest_bytes n i u)
unfolding digest_bytes
digest_bytes-AreBytes zero i u = tt
digest_bytes-AreBytes (suc n) i u = (omega arith, digest_bytes-AreBytes n (suc i) u)

length-digest_bytes : (n i u : ℕ) → length (digest_bytes n i u) ≡ n
unfolding digest_bytes
length-digest_bytes zero i u = refl
length-digest_bytes (suc n) i u = ap suc (length-digest_bytes n (suc i) u)

byte_pow : (i : ℕ) → 2 ^ (8 * suc i) ≡ 2 ^ (8 * i) * 256
byte_pow i = let e : 8 * suc i ≡ 8 * i + 8 = omega arith in rw e (sym (two_pow-add (8 * i) 8))

next_bytes : (i u : ℕ) → u / 2 ^ (8 * suc i) ≡ u / 2 ^ (8 * i) / 256
next_bytes i u = ap (λ (t : ℕ). u / t) (byte_pow i) ∙ sym (div-div-eq-div-mul u (2 ^ (8 * i)) 256)

word-digest_bytes :
    (n i u : ℕ) → u / 2 ^ (8 * i) < 256 ^ n → word (digest_bytes n i u) ≡ u / 2 ^ (8 * i)
unfolding word digest_bytes
word-digest_bytes zero i u p = omega arith
word-digest_bytes (suc n) i u p =
    let rest : u / 2 ^ (8 * suc i) < 256 ^ n = rw (next_bytes i u) (omega (arith, pow-suc 256 n)) in
    rw (word-digest_bytes n (suc i) u rest, next_bytes i u) (omega arith)

-- For every text of bytes `Hash` gives eight bytes, the lowest first, which are the value of the
-- reference.
pub hash-crc_bytes :
    (bytes : Bytes)
    → AreBytes bytes
    → AreBytes (hash bytes)
      × (length (hash bytes) ≡ 8)
      × (word (hash bytes) ≡ crc_bytes bytes ones ⊕ ones)
unfolding hash digest
hash-crc_bytes bytes h =
    let u = (update bytes fresh).context in
    let e : u / 2 ^ (8 * 0) ≡ u = omega arith in
    let fits = (update-Fits bytes fresh h fresh-Fits).0 in
    (
      digest_bytes-AreBytes 8 0 u,
      length-digest_bytes 8 0 u,
      word-digest_bytes 8 0 u (rw e fits) ∙ e ∙ update-crc_bytes bytes fresh h fresh-Fits,
    )
