-- ===== src/Http/Streams/Ends.antt =====
-- Streams of body_stream.hpp that know where they end, when they are read to their end.
use azure_sdk_for_cpp.Base.{
  ℕ, zero, suc, ◌-◌, ◌≡◌, ◌≤◌, ◌<◌, ◌⊎◌, inl, inr, ◌||◌, [], ◌++◌, Option, none, some, ltb, ltb→lt,
  ◌==◌, if◌then◌else◌, length, length-append, Bytes, Result, OnOk, Returns, ok, err, arith,
  Bool-cases,
}
use azure_sdk_for_cpp.Http.Streams.{read_to_count, read_to_end, chunk_size}

-- What holds of a result, where there is one.
abbrev pub Whenever {ℓ} : {E : Type 0} {A : Type ℓ} → (A → Type 0) → Option (Result E A) → Type 0
Whenever P none = Unit
Whenever P (some o) = OnOk P o

pub Returns-Whenever {ℓ} :
    {E : Type 0} {A : Type ℓ} (P Q : A → Type 0) (o : Option (Result E A))
    → Returns P o
    → Whenever Q o
    → Returns (λ a. P a × Q a) o
Returns-Whenever P Q none p q = p
Returns-Whenever P Q (some (ok a)) p q = (p, q)
Returns-Whenever P Q (some (err e)) p q = tt

module _ {S E : Type 0} (read : S → ℕ → Result E (S × Bytes)) (inv fin : S → Type 0) where
  -- A read that yields nothing, though something was asked for, is made at the end.
  abbrev pub Step : ℕ → S × Bytes → Type 0
  Step n (s, b) = inv s × ((length b ≤ n) × ((length b ≡ 0) → (n ≡ 0) ⊎ fin s))

  abbrev Short : ℕ → S × Bytes → Type 0
  Short count (s, b) = inv s × ((length b < count) → fin s)

  abbrev AtEnd : S × Bytes → Type 0
  AtEnd (s, b) = inv s × fin s

  module _ (step : (s : S) (n : ℕ) → inv s → OnOk (Step n) (read s n)) where
    read_to_count-Short :
        (fuel : ℕ) (s : S) (count : ℕ) (buffer : Bytes)
        → inv s
        → length buffer ≤ count
        → Whenever (Short count) (read_to_count read fuel s count buffer)
    unfolding read_to_count
    read_to_count-Short zero s count buffer v h = tt
    read_to_count-Short (suc fuel) s count buffer v h =
        round (read s (count - length buffer)) (step s (count - length buffer) v)
          (λ s' b. read_to_count-Short fuel s' count (buffer ++ b))
      where
        round :
            (o : Result E (S × Bytes))
            → OnOk (Step (count - length buffer)) o
            → ((s' : S) (b : Bytes)
                → inv s'
                → length (buffer ++ b) ≤ count
                → Whenever (Short count) (read_to_count read fuel s' count (buffer ++ b)))
            → Whenever (Short count) (elim o [
              | err e ↦ some (err e)
              | ok (s', b) ↦
                  let rest = read_to_count read fuel s' count (buffer ++ b) in
                  if length (buffer ++ b) == count || length b == 0
                  then some (ok (s', buffer ++ b))
                  else rest
            ])
        round (err e) p rest = tt
        round (ok (s', b)) (i, (le, last)) rest =
            let sum = length-append buffer b in
            elim (Bool-cases (length (buffer ++ b) == count || length b == 0)) [
              | inl stop ↦ rw stop (
                i,
                λ lt. elim (Bool-cases (length b == 0)) [
                  | inl z ↦ elim (last (ground arith)) [
                    | inl none_wanted ↦ absurd (omega arith)
                    | inr end ↦ end
                  ]
                  | inr z ↦ absurd (ground arith)
                ],
              )
              | inr go ↦ rw go (rest s' b i (omega arith))
            ]

    -- Whatever `ReadToEnd` returns, unless it throws, it has read to the end.
    pub read_to_end-AtEnd :
        (fuel : ℕ) (s : S) (buffer : Bytes)
        → inv s
        → Whenever AtEnd (read_to_end read fuel s buffer)
    unfolding read_to_end
    read_to_end-AtEnd zero s buffer v = tt
    read_to_end-AtEnd (suc fuel) s buffer v =
        round (read_to_count read (suc chunk_size) s chunk_size [])
          (read_to_count-Short (suc chunk_size) s chunk_size [] v (omega arith))
          (λ s' b. read_to_end-AtEnd fuel s' (buffer ++ b))
      where
        round :
            (o : Option (Result E (S × Bytes)))
            → Whenever (Short chunk_size) o
            → ((s' : S) (b : Bytes)
                → inv s'
                → Whenever AtEnd (read_to_end read fuel s' (buffer ++ b)))
            → Whenever AtEnd (elim o [
              | none ↦ none
              | some (err e) ↦ some (err e)
              | some (ok (s', b)) ↦
                  let rest = read_to_end read fuel s' (buffer ++ b) in
                  if ltb (length b) chunk_size then some (ok (s', buffer ++ b)) else rest
            ])
        round none p rest = tt
        round (some (err e)) p rest = tt
        round (some (ok (s', b))) (i, short) rest = elim (Bool-cases (ltb (length b) chunk_size)) [
          | inl stop ↦ rw stop (i, short (ltb→lt (length b) chunk_size stop))
          | inr go ↦ rw go (rest s' b i)
        ]
