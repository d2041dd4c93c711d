-- ===== src/Storage/ReliableStream/Tests.antt =====
-- The theorem on the reads at a service whose first read fails.
use azure_sdk_for_cpp.Base.{
  ℕ, suc, ◌==◌, zero, if◌then◌else◌, ◌≡◌, refl, [], ◌∷◌, some, drop, Bytes, codes, Result, ok, err,
}
use azure_sdk_for_cpp.Storage.ReliableStream.{
  ReadError, runtime_error, Service, ReliableStream, open_inner, read_opened, finish_intent,
  read_loop, reliable_read,
}

abbrev blob : Bytes
blob = codes "abcdef"

-- A stream is what is left of the blob. A read yields one byte.
abbrev one_byte : Bytes → ℕ → Result ReadError (Bytes × Bytes)
one_byte s zero = ok (s, [])
one_byte [] (suc n) = ok ([], [])
one_byte (x ∷ s) (suc n) = ok (s, x ∷ [])

-- The state counts the reads.
abbrev shaky : Service Bytes ℕ
shaky = record {
  open_at = λ o w. (ok (drop o blob), w);
  read = λ s n w. ((if w == 0 then err runtime_error else one_byte s n), suc w);
}

abbrev at_two : ReliableStream Bytes
at_two = record { inner = some (codes "cdef"); offset = 2 }

-- The first read fails; the second one reads from a new stream.
third_byte :
    reliable_read shaky 3 at_two 2 0
    ≡ some (ok (record { inner = some (codes "def"); offset = 3 }, codes "c"), 2)
unfolding reliable_read read_loop read_opened finish_intent open_inner
third_byte = refl
