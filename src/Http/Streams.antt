-- ===== src/Http/Streams.antt =====
-- sdk/core/azure-core/src/http/body_stream.cpp and inc/azure/core/http/body_stream.hpp. A read
-- yields the bytes that the code writes to the buffer, and the stream after it.
pub mod Complete
pub mod Ends
pub mod Kinds
mod Tests
use azure_sdk_for_cpp.Base.{
  ℕ, zero, suc, ◌+◌, ◌-◌, min, ◌≡◌, ◌≤◌, ◌⊎◌, Bool, true, false, ◌||◌, List, [], ◌∷◌, ◌++◌, Option,
  none, some, ltb, ◌==◌, if◌then◌else◌, length, take, drop, Bytes, Result, OnOk, ok, err, ◌>>=◌,
  ◌>>◌, require,
}

-- What a read promises of the bytes still to come: it yields the next ones, at most as many as
-- were asked for, maybe fewer, and none only if none were asked for or none are left.
unfoldable pub IsStream : {S E : Type 0} → (S → ℕ → Result E (S × Bytes)) → (S → Bytes) → Type 0
IsStream {S} read content =
    (s : S) (n : ℕ)
    → OnOk
        (λ ((s', b) : S × Bytes).
          (length b ≤ n)
          × ((content s ≡ b ++ content s') × ((length b ≡ 0) → (n ≡ 0) ⊎ (content s ≡ []))))
        (read s n)

abbrev pub chunk_size : ℕ
chunk_size = 8192

-- The same promise for the states that keep an invariant.
unfoldable pub IsStreamWithin :
    {S E : Type 0} → (S → Type 0) → (S → ℕ → Result E (S × Bytes)) → (S → Bytes) → Type 0
IsStreamWithin {S} inv read content =
    (s : S) (n : ℕ)
    → inv s
    → OnOk
        (λ ((s', b) : S × Bytes).
          inv s'
          × ((length b ≤ n)
              × ((content s ≡ b ++ content s') × ((length b ≡ 0) → (n ≡ 0) ⊎ (content s ≡ [])))))
        (read s n)

module _ {S E : Type 0} (read : S → ℕ → Result E (S × Bytes)) where
  -- The loop of `ReadToCount`. The length of the buffer is `totalRead`.
  unfoldable pub read_to_count : ℕ → S → ℕ → Bytes → Option (Result E (S × Bytes))
  read_to_count zero s count buffer = none
  read_to_count (suc fuel) s count buffer = elim (read s (count - length buffer)) [
    | err e ↦ some (err e)
    | ok (s', b) ↦
        let rest = read_to_count fuel s' count (buffer ++ b) in
        if length (buffer ++ b) == count || length b == 0 then some (ok (s', buffer ++ b)) else rest
  ]

  -- The loop of `ReadToEnd`. What is in the buffer is a multiple of the size of a chunk.
  unfoldable pub read_to_end : ℕ → S → Bytes → Option (Result E (S × Bytes))
  read_to_end zero s buffer = none
  read_to_end (suc fuel) s buffer = elim (read_to_count (suc chunk_size) s chunk_size []) [
    | none ↦ none
    | some (err e) ↦ some (err e)
    | some (ok (s', b)) ↦
        let rest = read_to_end fuel s' (buffer ++ b) in
        if ltb (length b) chunk_size then some (ok (s', buffer ++ b)) else rest
  ]

pub data StreamError : Type 0 where
  canceled reading_error : StreamError

pub record MemoryBodyStream : Type 0 where
  pub bytes : Bytes
  pub offset : ℕ

-- The first argument tells whether the context is canceled.
unfoldable pub memory_read :
    Bool → MemoryBodyStream → ℕ → Result StreamError (MemoryBodyStream × Bytes)
memory_read true s count = err canceled
memory_read false s count =
    let copy_length = min count (length s.bytes - s.offset) in
    ok (record s { offset = s.offset + copy_length }, take copy_length (drop s.offset s.bytes))

unfoldable pub memory_rewind : MemoryBodyStream → MemoryBodyStream
memory_rewind s = record s { offset = 0 }

pub record FileBodyStream : Type 0 where
  pub base_offset : ℕ
  pub size : ℕ
  pub offset : ℕ

-- `FileBodyStream` on POSIX. `pread count offset` is what the system call reads of the file, `none` if
-- it fails.
unfoldable pub file_read :
    (ℕ → ℕ → Option Bytes) → Bool → FileBodyStream → ℕ → Result StreamError (FileBodyStream × Bytes)
file_read pread true s count = err canceled
file_read pread false s count =
    elim (pread (min count (s.size - s.offset)) (s.base_offset + s.offset)) [
      | none ↦ err reading_error
      | some b ↦ ok (record s { offset = s.offset + length b }, b)
    ]

pub record LimitBodyStream (S : Type 0) : Type 0 where
  pub inner : S
  pub limit : ℕ
  pub bytes_read : ℕ

-- The constructor, with `Length()` of the inner stream.
unfoldable pub new_limit_body_stream : {S : Type 0} → S → ℕ → ℕ → LimitBodyStream S
new_limit_body_stream inner inner_length max_length = record {
  inner = inner;
  limit = min inner_length max_length;
  bytes_read = 0;
}

unfoldable pub limit_read :
    {S E : Type 0}
    → (S → ℕ → Result E (S × Bytes))
    → LimitBodyStream S
    → ℕ
    → Result E (LimitBodyStream S × Bytes)
limit_read read s count = do
  (inner, b) ← read s.inner (min count (s.limit - s.bytes_read))
  ok (record s { inner = inner; bytes_read = s.bytes_read + length b }, b)
