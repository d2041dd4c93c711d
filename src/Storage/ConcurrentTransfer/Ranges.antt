-- ===== src/Storage/ConcurrentTransfer/Ranges.antt =====
-- The ranges of the chunks of concurrent_transfer.hpp make up the range that is transferred.
use native.Mathlib.Nat.{div-lt_iff_lt-mul, div-mul-le_self, lt-div-mul-add}
use azure_sdk_for_cpp.Base.{
  ℕ, suc, ◌+◌, ◌-◌, ◌*◌, ◌/◌, ◌≡◌, sym, ◌↔◌, ◌≤◌, ◌<◌, arith, Bool-cases, inl, inr, ltb, ltb→lt,
  ltb→le,
}
use azure_sdk_for_cpp.Storage.ConcurrentTransfer.{num_chunks, chunk_offset, chunk_length}

module _ (k : ℕ) (pos : 0 < k) where
  expand : (n : ℕ) → suc n * k ≡ k * n + k
  expand n = grind arith

  below_chunks : (total i : ℕ) → i < (total + k - 1) / k → k * i < total
  below_chunks total i lt =
      let e = expand i in
      elim (Bool-cases (ltb (total + k - 1) (suc i * k))) [
        | inl small ↦
            let l =
              (div-lt_iff_lt-mul {k = k} {x = total + k - 1} {y = suc i} pos).1
                (ltb→lt (total + k - 1) (suc i * k) small) in
            absurd (omega arith)
        | inr large ↦ let l = ltb→le (total + k - 1) (suc i * k) large in omega arith
      ]

  position-lt : (total p : ℕ) → p < total → p / k < (total + k - 1) / k
  position-lt total p lt =
      let e = expand (p / k) in
      let f = div-mul-le_self p k in
      let c : p / k * k ≡ k * (p / k) = grind arith in
      elim (Bool-cases (ltb (p / k) ((total + k - 1) / k))) [
        | inl less ↦ ltb→lt (p / k) ((total + k - 1) / k) less
        | inr more ↦
            let m = ltb→le (p / k) ((total + k - 1) / k) more in
            let l =
              (div-lt_iff_lt-mul {k = k} {x = total + k - 1} {y = suc (p / k)} pos).0
                (omega arith) in
            absurd (omega arith)
      ]

  quotient : (p i : ℕ) → k * i ≤ p → p < k * i + k → i ≡ p / k
  quotient p i le lt =
      let e = expand i in
      let c : i * k ≡ k * i = grind arith in
      let up = (div-lt_iff_lt-mul {k = k} {x = p} {y = suc i} pos).1 (omega arith) in
      elim (Bool-cases (ltb (p / k) i)) [
        | inl less ↦
            let l = (div-lt_iff_lt-mul {k = k} {x = p} {y = i} pos).0 (ltb→lt (p / k) i less) in
            absurd (omega arith)
        | inr more ↦ let m = ltb→le (p / k) i more in omega arith
      ]

-- With chunks of some size, a byte at a distance of less than the total from the offset stands in the
-- range of exactly one chunk, the one that its distance divided by the size of a chunk numbers; and no
-- chunk is empty, longer than a chunk or reaches beyond the end.
pub chunk-partition :
    (offset total chunk_size chunk_id position : ℕ)
    → 0 < chunk_size
    → chunk_id < num_chunks total chunk_size
    → ((0 < chunk_length total chunk_size chunk_id)
        × (chunk_offset offset chunk_size chunk_id + chunk_length total chunk_size chunk_id
            ≤ offset + total))
      × (position < total
          → (position / chunk_size < num_chunks total chunk_size)
            × (((chunk_offset offset chunk_size chunk_id ≤ offset + position)
                  × (offset + position
                      < chunk_offset offset chunk_size chunk_id
                        + chunk_length total chunk_size chunk_id))
                ↔ (chunk_id ≡ position / chunk_size)))
unfolding num_chunks chunk_offset chunk_length
chunk-partition offset total chunk_size chunk_id position pos lt =
    let below = below_chunks chunk_size pos total chunk_id lt in
    (
      (omega arith, omega arith),
      λ inside. (
        position-lt chunk_size pos total position inside,
        (
          (λ (le, end). quotient chunk_size pos position chunk_id (omega arith) (omega arith)),
          λ e.
              let low = div-mul-le_self position chunk_size in
              let high = lt-div-mul-add {a = position} {b = chunk_size} pos in
              let c : position / chunk_size * chunk_size ≡ chunk_size * chunk_id =
                rw (sym e) (grind arith) in
              (omega arith, omega arith),
        ),
      ),
    )
