-- ===== src/Storage/ReliableStream.antt =====
-- sdk/storage/azure-storage-common/src/reliable_stream.cpp. The inner streams, which come from the
-- service, are a parameter, with the state `W` of what is outside.
pub mod Resume
mod Tests
use azure_sdk_for_cpp.Base.{
  ℕ, zero, suc, ◌+◌, Bool, true, false, Option, none, some, ◌==◌, if◌then◌else◌, length, Bytes,
  Result, ok, err,
}

-- A `std::runtime_error`, after which the read is tried again, and any other exception.
pub data ReadError : Type 0 where
  runtime_error other_error : ReadError

-- `m_httpGetter`, which opens a stream at an offset, and `Read` of the streams it opens.
pub record Service (S W : Type 0) : Type 0 where
  pub open_at : ℕ → W → Result ReadError S × W
  pub read : S → ℕ → W → Result ReadError (S × Bytes) × W

pub record ReliableStream (S : Type 0) : Type 0 where
  -- `m_inner`, `none` for the null pointer.
  pub inner : Option S
  -- `m_retryInfo.Offset`
  pub offset : ℕ

module _ {S W : Type 0} (service : Service S W) where
  -- `m_inner`, opened if it is not there.
  unfoldable pub open_inner : ReliableStream S → W → Result ReadError S × W
  open_inner r w = opened r.inner
    where
      opened : Option S → Result ReadError S × W
      opened (some s) = (ok s, w)
      opened none = service.open_at r.offset w

  -- The outcome of a read of the inner stream. `again` is the next round of the loop.
  unfoldable pub finish_intent :
      ℕ
      → ReliableStream S
      → ℕ
      → Option (Result ReadError (ReliableStream S × Bytes) × W)
      → Result ReadError (S × Bytes)
      → W
      → Option (Result ReadError (ReliableStream S × Bytes) × W)
  finish_intent max_retry_requests r intent again (ok (s, b)) w =
      some (ok (record r { inner = some s; offset = r.offset + length b }, b), w)
  finish_intent max_retry_requests r intent again (err runtime_error) w =
      if intent == max_retry_requests then some (err runtime_error, w) else again
  finish_intent max_retry_requests r intent again (err other_error) w = some (err other_error, w)

  -- The rest of an intent, once the inner stream is there or could not be opened.
  unfoldable pub read_opened :
      ℕ
      → ReliableStream S
      → ℕ
      → ℕ
      → (W → Option (Result ReadError (ReliableStream S × Bytes) × W))
      → Result ReadError S
      → W
      → Option (Result ReadError (ReliableStream S × Bytes) × W)
  read_opened max_retry_requests r intent count again (err e) w = some (err e, w)
  read_opened max_retry_requests r intent count again (ok s) w =
      let (result, w') = service.read s count w in
      finish_intent max_retry_requests r intent (again w') result w'

  -- The loop of `Read`, from an intent on.
  unfoldable pub read_loop :
      ℕ
      → ℕ
      → ℕ
      → ReliableStream S
      → ℕ
      → W
      → Option (Result ReadError (ReliableStream S × Bytes) × W)
  read_loop zero max_retry_requests intent r count w = none
  read_loop (suc fuel) max_retry_requests intent r count w =
      let (opened, w') = open_inner r w in
      read_opened max_retry_requests r intent count
        (read_loop fuel max_retry_requests (suc intent) (record r { inner = none }) count) opened w'

  -- `ReliableStream::Read`, with fuel for the intents that the options allow.
  unfoldable pub reliable_read :
      ℕ → ReliableStream S → ℕ → W → Option (Result ReadError (ReliableStream S × Bytes) × W)
  reliable_read max_retry_requests r count w =
      read_loop max_retry_requests max_retry_requests 1 r count w
