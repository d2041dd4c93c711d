-- ===== src/Storage/Crc64/Update/Reference.antt =====
-- The reference for `Crc64::Update`, a digit at a time, and its value xs one shift of the whole text.
use native.Mathlib.Nat.{pow-suc, one-le-pow}
use azure_sdk_for_cpp.Base.{
  ℕ, zero, suc, ◌+◌, ◌*◌, ◌/◌, ◌%◌, ◌^◌, ◌<◌, ◌≤◌, ◌≡◌, refl, sym, ap, ◌∙◌, [], ◌∷◌, ◌++◌, Bytes,
  AreBytes, length, arith,
}
use azure_sdk_for_cpp.Storage.Crc64.Xor.{
  ◌⊕◌, xor_high, xor-zero, zero-xor, xor_assoc, xor_comm, xor_fields,
}
use azure_sdk_for_cpp.Storage.Crc64.Step.{steps, steps-xor, steps-add, steps_split, steps_shift}
use azure_sdk_for_cpp.Storage.Crc64.Update.{
  word, update_byte, update_bytes, shift_byte, shift_bytes, lane_rows, lane,
}
use azure_sdk_for_cpp.Storage.Crc64.Update.Entries.{byte_entry-steps, row_entry-steps}

-- A byte goes to the lowest digits, and eight digits go out.
unfoldable pub crc_bytes : Bytes → ℕ → ℕ
crc_bytes [] u = u
crc_bytes (d ∷ ds) u = crc_bytes ds (steps 8 (u ⊕ d))

byte_out : (u d : ℕ) → d < 256 → (u ⊕ d) / 256 ≡ u / 256
byte_out u d p = let e : d / 256 ≡ 0 = omega arith in xor_high 8 u d ∙ rw e (xor-zero (u / 256))

shift_byte-steps : (u : ℕ) → shift_byte u ≡ steps 8 u
unfolding shift_byte
shift_byte-steps u = rw (byte_entry-steps (u % 256) (omega arith)) (sym (steps_split 8 u))

update_byte-steps : (u d : ℕ) → d < 256 → update_byte u d ≡ steps 8 (u ⊕ d)
unfolding update_byte
update_byte-steps u d p =
    rw (byte_entry-steps ((u ⊕ d) % 256) (omega arith), sym (byte_out u d p))
      (sym (steps_split 8 (u ⊕ d)))

-- The loop over bytes does what the reference does.
pub update_bytes-crc_bytes : (ds : Bytes) (u : ℕ) → AreBytes ds → update_bytes ds u ≡ crc_bytes ds u
unfolding update_bytes crc_bytes
update_bytes-crc_bytes [] u h = refl
update_bytes-crc_bytes (d ∷ ds) u h =
    rw (update_byte-steps u d h.0) (update_bytes-crc_bytes ds (steps 8 (u ⊕ d)) h.1)

pub shift_bytes-steps : (n u : ℕ) → shift_bytes n u ≡ steps (8 * n) u
unfolding shift_bytes steps
shift_bytes-steps zero u = refl
shift_bytes-steps (suc n) u =
    let e : 8 * suc n ≡ 8 + 8 * n = omega arith in
    rw (shift_byte-steps u, e, steps-add 8 (8 * n) u) (shift_bytes-steps n (steps 8 u))

-- Of the digits that a byte and the bytes above it have, the byte goes out first.
steps_byte : (n b : ℕ) → steps (8 + n) b ≡ steps n (b / 256) ⊕ steps (8 + n) (b % 256)
steps_byte n b =
    rw
      (
        steps-add 8 n b,
        steps_split 8 b,
        steps-xor n (b / 256) (steps 8 (b % 256)),
        steps-add 8 n (b % 256),
      )
      refl

lane_rows-steps :
    (row b crc : ℕ)
    → row < 8
    → b < 256 ^ suc row
    → lane_rows row b crc ≡ crc ⊕ steps (200 + 8 * row) b
unfolding lane_rows
lane_rows-steps zero b crc q p =
    let e : b % 256 ≡ b = omega arith in
    rw (e, row_entry-steps 0 b (omega arith) (omega arith)) refl
lane_rows-steps (suc row) b crc q p =
    let e : 200 + 8 * suc row ≡ 8 + (200 + 8 * row) = omega arith in
    let fits : b / 256 < 256 ^ suc row = omega (arith, pow-suc 256 (suc row)) in
    let high = steps (200 + 8 * row) (b / 256) in
    let low = steps (200 + 8 * suc row) (b % 256) in
    rw (row_entry-steps (suc row) (b % 256) q (omega arith)) (
      lane_rows-steps row (b / 256) (crc ⊕ low) (omega arith) fits
      ∙ xor_assoc crc low high
      ∙ ap (λ t. crc ⊕ t) (xor_comm low high)
      ∙ ap (λ t. crc ⊕ t) (rw e (sym (steps_byte (200 + 8 * row) b))))

pub lane-steps : (b : ℕ) → b < 2 ^ 64 → lane b ≡ steps 256 b
unfolding lane
lane-steps b p = rw (row_entry-steps 7 (b % 256) (omega arith) (omega arith)) (
    lane_rows-steps 6 (b / 256) (steps 256 (b % 256)) (omega arith) (omega arith)
    ∙ xor_comm _ _
    ∙ sym (steps_byte 248 b))

pub word-lt : (k : ℕ) (ds : Bytes) → AreBytes ds → length ds ≤ k → word ds < 256 ^ k
unfolding word
word-lt k [] h le = one-le-pow k 256 (omega arith)
word-lt zero (d ∷ ds) h le = absurd (omega arith)
word-lt (suc k) (d ∷ ds) h le = omega (arith, h.0, word-lt k ds h.1 (omega arith), pow-suc 256 k)

word-cons : (u d w : ℕ) → d < 256 → steps 8 (u ⊕ (d + 256 * w)) ≡ steps 8 (u ⊕ d) ⊕ w
word-cons u d w p =
    let e : d + 256 * w ≡ w * 2 ^ 8 + d = omega arith in
    rw
      (
        e,
        sym (xor_fields 8 w d p),
        xor_comm (w * 2 ^ 8) d,
        sym (xor_assoc u d (w * 2 ^ 8)),
        steps-xor 8 (u ⊕ d) (w * 2 ^ 8),
        steps_shift 8 w,
      )
      refl

-- The bytes are the digits of a number, which the value so far is added to.
pub crc_bytes-word :
    (ds : Bytes) (u : ℕ) → AreBytes ds → crc_bytes ds u ≡ steps (8 * length ds) (u ⊕ word ds)
unfolding crc_bytes word steps
crc_bytes-word [] u h = sym (xor-zero u)
crc_bytes-word (d ∷ ds) u h =
    let e : 8 * suc (length ds) ≡ 8 + 8 * length ds = omega arith in
    crc_bytes-word ds (steps 8 (u ⊕ d)) h.1
    ∙ ap (steps (8 * length ds)) (sym (word-cons u d (word ds) h.0))
    ∙ sym (steps-add 8 (8 * length ds) (u ⊕ word (d ∷ ds)))
    ∙ ap (λ n. steps n (u ⊕ word (d ∷ ds))) (sym e)

pub crc_bytes-append :
    (xs ys : Bytes) (u : ℕ) → crc_bytes (xs ++ ys) u ≡ crc_bytes ys (crc_bytes xs u)
unfolding crc_bytes
crc_bytes-append [] ys u = refl
crc_bytes-append (x ∷ xs) ys u = crc_bytes-append xs ys (steps 8 (u ⊕ x))

-- What the value so far adds.
pub crc_bytes-start :
    (ds : Bytes) (u : ℕ) → AreBytes ds → crc_bytes ds u ≡ crc_bytes ds 0 ⊕ steps (8 * length ds) u
crc_bytes-start ds u h =
    rw
      (
        crc_bytes-word ds u h,
        crc_bytes-word ds 0 h,
        zero-xor (word ds),
        steps-xor (8 * length ds) u (word ds),
      )
      (xor_comm _ _)
