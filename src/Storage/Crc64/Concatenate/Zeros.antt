-- ===== src/Storage/Crc64/Concatenate/Zeros.antt =====
-- `Crc64::Concatenate`, the comment in it, and texts in two parts.
use azure_sdk_for_cpp.Base.{
  ℕ, zero, suc, ◌+◌, ◌*◌, ◌^◌, ◌<◌, ◌≡◌, refl, sym, ap, ◌∙◌, [], ◌∷◌, Bytes, AreBytes, length,
  arith,
}
use azure_sdk_for_cpp.Storage.Crc64.Xor.{
  ◌⊕◌, xor_twice, xor_middle, xor_assoc, xor-lt, xor-zero, zero-xor,
}
use azure_sdk_for_cpp.Storage.Crc64.Step.{steps, steps-xor, steps-add}
use azure_sdk_for_cpp.Storage.Crc64.Update.{Crc64, ones, update, word}
use azure_sdk_for_cpp.Storage.Crc64.Update.Reference.{crc_bytes, crc_bytes-word}
use azure_sdk_for_cpp.Storage.Crc64.Update.Equivalence.{
  Fits, equal_crc64, update-crc_bytes, update-Fits,
}
use azure_sdk_for_cpp.Storage.Crc64.Concatenate.{concatenate, advance, fresh}
use azure_sdk_for_cpp.Storage.Crc64.Concatenate.Powers.{advance-steps}

-- The vector `zerostr`.
unfoldable pub zeros : ℕ → Bytes
zeros zero = []
zeros (suc n) = 0 ∷ zeros n

-- The context after the code in the comment.
unfoldable pub concatenate_zeros : Crc64 → Crc64 → ℕ
concatenate_zeros other crc =
    let flipped : Crc64 = record { context = crc.context ⊕ ones; length = crc.length } in
    ((update (zeros other.length) flipped).context ⊕ other.context) ⊕ ones

zeros-AreBytes : (n : ℕ) → AreBytes (zeros n)
unfolding zeros
zeros-AreBytes zero = tt
zeros-AreBytes (suc n) = (omega arith, zeros-AreBytes n)

-- Bytes of zero only move the value.
zeros-crc_bytes : (n u : ℕ) → crc_bytes (zeros n) u ≡ steps (8 * n) u
unfolding zeros crc_bytes steps
zeros-crc_bytes zero u = refl
zeros-crc_bytes (suc n) u =
    let e : 8 * suc n ≡ 8 + 8 * n = omega arith in
    ap (λ t. crc_bytes (zeros n) (steps 8 t)) (xor-zero u)
    ∙ zeros-crc_bytes n (steps 8 u)
    ∙ sym (steps-add 8 (8 * n) u)
    ∙ ap (λ m. steps m u) (sym e)

advance_length :
    (other crc : Crc64)
    → Fits other
    → Fits crc
    → advance 64 0 other.length crc.context ≡ steps (8 * other.length) crc.context
advance_length other crc f g =
    let e : other.length * 2 ^ 0 ≡ other.length = omega arith in
    advance-steps 64 0 other.length crc.context (omega arith) f.1 g.0
    ∙ ap (λ n. steps (8 * n) crc.context) e

concatenate_zeros-steps :
    (other crc : Crc64)
    → Fits crc
    → concatenate_zeros other crc ≡ steps (8 * other.length) crc.context ⊕ other.context
unfolding concatenate_zeros
concatenate_zeros-steps other crc g =
    let flipped : Crc64 = record { context = crc.context ⊕ ones; length = crc.length } in
    let moved = steps (8 * other.length) crc.context in
    let fits : Fits flipped = (xor-lt 64 crc.context ones g.0 (omega arith), g.1) in
    let e : (update (zeros other.length) flipped).context ≡ moved ⊕ ones =
      update-crc_bytes (zeros other.length) flipped (zeros-AreBytes other.length) fits
      ∙ ap (λ t. t ⊕ ones)
          (zeros-crc_bytes other.length _
            ∙ ap (steps (8 * other.length)) (xor_twice crc.context ones)) in
    ap (λ t. (t ⊕ other.context) ⊕ ones) e
    ∙ ap (λ t. t ⊕ ones) (xor_middle moved ones other.context)
    ∙ xor_twice (moved ⊕ other.context) ones

concatenate-steps :
    (other crc : Crc64)
    → Fits other
    → Fits crc
    → (concatenate other crc).context ≡ steps (8 * other.length) crc.context ⊕ other.context
unfolding concatenate
concatenate-steps other crc f g = ap (λ t. t ⊕ other.context) (advance_length other crc f g)

-- `Concatenate` gives the context that the code in its comment gives: that of a text of zeros, as long
-- as the second text, after the first, and the context of the second text.
pub concatenate-concatenate_zeros :
    (other crc : Crc64)
    → Fits other
    → Fits crc
    → (concatenate other crc).context ≡ concatenate_zeros other crc
concatenate-concatenate_zeros other crc f g =
    concatenate-steps other crc f g ∙ sym (concatenate_zeros-steps other crc g)

-- What is added to the value so far is moved over the text.
crc_bytes-xor :
    (ds : Bytes) (u v : ℕ)
    → AreBytes ds
    → crc_bytes ds (u ⊕ v) ≡ steps (8 * length ds) u ⊕ crc_bytes ds v
crc_bytes-xor ds u v h =
    let n = 8 * length ds in
    rw (crc_bytes-word ds (u ⊕ v) h, crc_bytes-word ds v h, xor_assoc u v (word ds))
      (steps-xor n u (v ⊕ word ds))

pub fresh-Fits : Fits fresh
fresh-Fits = (omega arith, omega arith)

update-fresh-length :
    (bytes : Bytes) → length bytes < 2 ^ 64 → (update bytes fresh).length ≡ length bytes
unfolding update
update-fresh-length bytes p = omega arith

concatenate-update-length :
    (bytes : Bytes) (crc : Crc64)
    → length bytes < 2 ^ 64
    → (concatenate (update bytes fresh) crc).length ≡ (update bytes crc).length
unfolding concatenate update
concatenate-update-length bytes crc p = omega arith

-- For a text of bytes shorter than 2 ^ 64 and an object whose two numbers are below 2 ^ 64,
-- `Concatenate` with the object of that text alone is `Update` with the text: the parts of a file
-- can be summed apart.
pub concatenate-update :
    (bytes : Bytes) (crc : Crc64)
    → AreBytes bytes
    → length bytes < 2 ^ 64
    → Fits crc
    → concatenate (update bytes fresh) crc ≡ update bytes crc
concatenate-update bytes crc h p f =
    let moved = steps (8 * length bytes) crc.context in
    equal_crc64 _ _
      (concatenate-steps (update bytes fresh) crc (update-Fits bytes fresh h fresh-Fits) f
        ∙ rw (update-fresh-length bytes p, update-crc_bytes bytes fresh h fresh-Fits, zero-xor ones)
            (sym (xor_assoc moved (crc_bytes bytes ones) ones))
        ∙ ap (λ t. t ⊕ ones) (sym (crc_bytes-xor bytes crc.context ones h))
        ∙ sym (update-crc_bytes bytes crc h f))
      (concatenate-update-length bytes crc p)
