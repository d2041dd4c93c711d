-- ===== src/Http/Streams/Kinds.antt =====
-- The streams of body_stream.cpp keep the promise of a read.
use azure_sdk_for_cpp.Base.{
  ℕ, zero, suc, ◌+◌, ◌-◌, min, ◌≡◌, refl, sym, ◌≤◌, ◌⊎◌, inl, inr, Bool, true, false, [], ◌∷◌, ◌++◌,
  Option, none, some, length, take, drop, length-take, length-drop, take-append-drop, Bytes, Result,
  OnOk, ok, err, ◌>>=◌, arith,
}
use azure_sdk_for_cpp.Http.Streams.{
  IsStream, MemoryBodyStream, memory_read, FileBodyStream, file_read, LimitBodyStream, limit_read,
  reading_error,
}
use azure_sdk_for_cpp.Base.{take-append, drop-drop, take_none}

none_of : (n : ℕ) (xs : Bytes) → min n (length xs) ≡ 0 → (n ≡ 0) ⊎ (xs ≡ [])
none_of zero xs h = inl refl
none_of (suc n) [] h = inr refl
none_of (suc n) (x ∷ xs) h = absurd (omega arith)

none_or : (n m : ℕ) → min n m ≡ 0 → (n ≡ 0) ⊎ (m ≡ 0)
none_or zero m h = inl refl
none_or (suc n) zero h = inr refl
none_or (suc n) (suc m) h = absurd (omega arith)

limited : (n m : ℕ) (xs : Bytes) → (min n m ≡ 0) ⊎ (xs ≡ []) → (n ≡ 0) ⊎ (take m xs ≡ [])
limited n m xs (inr e) = inr (take_none m xs (inr e))
limited n m xs (inl e) = elim (none_or n m e) [
  | inl z ↦ inl z
  | inr z ↦ inr (take_none m xs (inl z))
]

-- What a stream on memory has left.
abbrev pub memory_content : MemoryBodyStream → Bytes
memory_content s = drop s.offset s.bytes

pub memory_read-IsStream : (is_canceled : Bool) → IsStream (memory_read is_canceled) memory_content
unfolding IsStream memory_read
memory_read-IsStream true s n = tt
memory_read-IsStream false s n =
    let k = min n (length s.bytes - s.offset) in
    let lk = length-take k (drop s.offset s.bytes) in
    let ld = length-drop s.offset s.bytes in
    (
      omega arith,
      (
        rw (sym (drop-drop s.offset k s.bytes)) (sym (take-append-drop k (drop s.offset s.bytes))),
        λ z. none_of n (drop s.offset s.bytes) (omega arith),
      ),
    )

-- A stream limited to a number of bytes has the first bytes of the other left.
abbrev pub limit_content : {S : Type 0} → (S → Bytes) → LimitBodyStream S → Bytes
limit_content content s = take (s.limit - s.bytes_read) (content s.inner)

pub limit_read-IsStream :
    {S E : Type 0} (read : S → ℕ → Result E (S × Bytes)) (content : S → Bytes)
    → IsStream read content
    → IsStream (limit_read read) (limit_content content)
unfolding IsStream limit_read
limit_read-IsStream {S} {E} read content stream s n =
    round (read s.inner (min n (s.limit - s.bytes_read)))
      (stream s.inner (min n (s.limit - s.bytes_read)))
  where
    round :
        (o : Result E (S × Bytes))
        → OnOk
            (λ ((t, b) : S × Bytes).
              (length b ≤ min n (s.limit - s.bytes_read))
              × ((content s.inner ≡ b ++ content t)
                  × ((length b ≡ 0)
                      → (min n (s.limit - s.bytes_read) ≡ 0) ⊎ (content s.inner ≡ []))))
            o
        → OnOk
            (λ ((t, b) : LimitBodyStream S × Bytes).
              (length b ≤ n)
              × ((limit_content content s ≡ b ++ limit_content content t)
                  × ((length b ≡ 0) → (n ≡ 0) ⊎ (limit_content content s ≡ []))))
            (o >>= (λ (t, b). ok (record s { inner = t; bytes_read = s.bytes_read + length b }, b)))
    round (err e) p = tt
    round (ok (t, b)) (le, (e, none_left)) =
        let k : s.limit - (s.bytes_read + length b) ≡ s.limit - s.bytes_read - length b =
          omega arith in
        (
          omega arith,
          (
            rw (e, k) (take-append (s.limit - s.bytes_read) b (content t) (omega arith)),
            λ z. limited n (s.limit - s.bytes_read) (content s.inner) (none_left z),
          ),
        )

-- What a stream on a file has left.
abbrev pub file_content : Bytes → FileBodyStream → Bytes
file_content file s = take (s.size - s.offset) (drop (s.base_offset + s.offset) file)

-- `pread` on a file: the bytes at the offset, at most as many as asked for, and some unless none were
-- asked for or the offset is at the end.
abbrev pub Reads : (ℕ → ℕ → Option Bytes) → Bytes → Type 0
Reads pread file =
    (n o : ℕ) (b : Bytes)
    → pread n o ≡ some b
    → (length b ≤ n)
      × ((drop o file ≡ b ++ drop (o + length b) file)
          × ((length b ≡ 0) → (n ≡ 0) ⊎ (drop o file ≡ [])))

pub file_read-IsStream :
    (pread : ℕ → ℕ → Option Bytes) (file : Bytes) (is_canceled : Bool)
    → Reads pread file
    → IsStream (file_read pread is_canceled) (file_content file)
unfolding IsStream file_read
file_read-IsStream pread file true law s n = tt
file_read-IsStream pread file false law s n =
    let m = min n (s.size - s.offset) in
    let o = s.base_offset + s.offset in round (pread m o) (law m o)
  where
    round :
        (r : Option Bytes)
        → ((b : Bytes)
            → r ≡ some b
            → (length b ≤ min n (s.size - s.offset))
              × ((drop (s.base_offset + s.offset) file
                    ≡ b ++ drop (s.base_offset + s.offset + length b) file)
                  × ((length b ≡ 0)
                      → (min n (s.size - s.offset) ≡ 0)
                        ⊎ (drop (s.base_offset + s.offset) file ≡ []))))
        → OnOk
            (λ ((t, b) : FileBodyStream × Bytes).
              (length b ≤ n)
              × ((file_content file s ≡ b ++ file_content file t)
                  × ((length b ≡ 0) → (n ≡ 0) ⊎ (file_content file s ≡ []))))
            (elim r [
              | none ↦ err reading_error
              | some b ↦ ok (record s { offset = s.offset + length b }, b)
            ])
    round none p = tt
    round (some b) p =
        let (le, (e, none_left)) = p b refl in
        let k : s.size - (s.offset + length b) ≡ s.size - s.offset - length b = omega arith in
        let j : s.base_offset + (s.offset + length b) ≡ s.base_offset + s.offset + length b =
          omega arith in
        (
          omega arith,
          (
            rw (e, k, j)
                (take-append (s.size - s.offset) b (drop (s.base_offset + s.offset + length b) file)
                  (omega arith)),
            λ z. limited n (s.size - s.offset) (drop (s.base_offset + s.offset) file) (none_left z),
          ),
        )
