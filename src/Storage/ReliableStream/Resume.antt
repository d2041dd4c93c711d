-- ===== src/Storage/ReliableStream/Resume.antt =====
-- A reliable stream yields the bytes of what it reads in order, whatever fails in between.
use azure_sdk_for_cpp.Base.{
  ℕ, ◌+◌, ◌≡◌, ◌≤◌, ◌⊎◌, [], ◌++◌, Option, none, some, length, drop, Bytes, Result, OnOk, ok, err,
}
use azure_sdk_for_cpp.Storage.ReliableStream.{ReadError, Service, ReliableStream}

module _ {S W : Type 0} (service : Service S W) (content : S → Bytes) (blob : Bytes) where
  -- What the code relies on: a stream that is opened holds the blob from the offset on, and a read
  -- that does not throw yields the next bytes, at most as many as asked for, and none only if none
  -- were asked for or none are left.
  abbrev pub Serves : Type 0
  Serves =
      ((o : ℕ) (w : W) → OnOk (λ s. content s ≡ drop o blob) (service.open_at o w).0)
      × ((s : S) (n : ℕ) (w : W)
          → OnOk
              (λ ((t, b) : S × Bytes).
                (length b ≤ n)
                × ((content s ≡ b ++ content t) × ((length b ≡ 0) → (n ≡ 0) ⊎ (content s ≡ []))))
              (service.read s n w).0)

  -- The inner stream, if there is one, is at the offset.
  abbrev pub InStep : ReliableStream S → Type 0
  InStep r = (s : S) → r.inner ≡ some s → content s ≡ drop r.offset blob

  -- The read ends, and unless it throws, it yields the next bytes of the blob.
  abbrev pub Resumes : ℕ → ℕ → Option (Result ReadError (ReliableStream S × Bytes) × W) → Type 0
  Resumes o n none = ⊥
  Resumes o n (some (err e, w)) = Unit {0}
  Resumes o n (some (ok (r, b), w)) =
      (InStep r × (r.offset ≡ o + length b))
      × ((length b ≤ n)
          × ((drop o blob ≡ b ++ drop r.offset blob)
              × ((length b ≡ 0) → (n ≡ 0) ⊎ (drop o blob ≡ []))))

  Yields : S → ℕ → Result ReadError (S × Bytes) → Type 0
  Yields s n o =
      OnOk
        (λ ((t, b) : S × Bytes).
          (length b ≤ n)
          × ((content s ≡ b ++ content t) × ((length b ≡ 0) → (n ≡ 0) ⊎ (content s ≡ []))))
        o
