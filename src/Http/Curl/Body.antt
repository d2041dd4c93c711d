-- ===== src/Http/Curl/Body.antt =====
-- `CurlSession::Read` of sdk/core/azure-core/src/http/curl/curl.cpp: the body of a response.
pub mod Chunks
pub mod Lengths
pub mod Plain
pub mod Whole
use azure_sdk_for_cpp.Base.{
  ℕ, zero, suc, ◌+◌, ◌-◌, min, Bool, true, false, not, ◌&&◌, ◌||◌, List, [], ◌∷◌, ◌++◌, Option,
  none, some, ltb, ◌==◌, if◌then◌else◌, length, take, drop, Bytes, Result, ok, err, ◌>>=◌, ◌>>◌,
  require,
}
use azure_sdk_for_cpp.Http.Curl.Session.{
  CurlSession, SessionError, incomplete_body, start_of, is_length, is_eof, pull, chunk_loop,
}

-- No more than the length of the content leaves.
unfoldable pub content_limit : ℕ → ℕ → Option ℕ → ℕ
content_limit of_chunk total none = of_chunk
content_limit of_chunk total (some zero) = of_chunk
content_limit of_chunk total (some (suc n)) = min of_chunk (suc n - total)

-- How many bytes a read asks for.
unfoldable pub read_request_length : CurlSession → ℕ → ℕ
read_request_length s count =
    let of_chunk =
      if s.is_chunked_response_type
      then min (s.chunk_size - s.session_total_read) count
      else count in
    content_limit of_chunk s.session_total_read s.content_length

abbrev pub at_end_of_buffer : ℕ → ℕ → Option ℕ
at_end_of_buffer index size = if index == size then none else some index

-- From the internal buffer.
unfoldable pub read_inner : CurlSession → ℕ → ℕ → CurlSession × Bytes
read_inner s start n =
    let b = take (min n (s.inner_buffer_size - start)) (drop start s.read_buffer) in
    (
      record s {
        body_start_in_buffer = at_end_of_buffer (start + length b) s.inner_buffer_size;
        session_total_read = s.session_total_read + length b;
      },
      b,
    )

-- Whether the connection closed before the end of the body.
unfoldable pub is_cut_short : CurlSession → ℕ → Bool
is_cut_short s read =
    let total = s.session_total_read + read in
    if not (read == 0)
    then false
    else if s.is_chunked_response_type
    then ltb total s.chunk_size
    else elim s.content_length [ none ↦ false | some n ↦ ltb total n ]

module _ {W : Type 0} (read_from_socket : W → ℕ → Result SessionError (W × Bytes)) where
  abbrev ChunkResult : Type 0
  ChunkResult = Option (Result SessionError (CurlSession × W))

  -- The carriage return or the line feed after a chunk.
  unfoldable pub skip_one : CurlSession → W → Result SessionError (CurlSession × W)
  skip_one s w =
      let start = start_of s.body_start_in_buffer in
      if ltb 0 start && ltb start s.inner_buffer_size
      then ok (record s { body_start_in_buffer = some (suc start) }, w)
      else do
        (s', w') ← pull read_from_socket s w
        ok (record s' { body_start_in_buffer = some 1 }, w')

  unfoldable pub follow_skips : ℕ → Result SessionError (CurlSession × W) → ChunkResult
  follow_skips fuel (err e) = some (err e)
  follow_skips fuel (ok (s, w)) =
      chunk_loop read_from_socket fuel [] (record s { session_total_read = 0 }) w

  -- The end of a chunk and the size of the next one, where a chunk is read.
  unfoldable pub next_chunk : ℕ → CurlSession → W → ChunkResult
  next_chunk fuel s w =
      if s.is_chunked_response_type && s.chunk_size == s.session_total_read
      then follow_skips fuel (skip_one s w >>= λ (t, v). skip_one t v)
      else some (ok (s, w))

  -- From the socket.
  unfoldable pub read_socket : CurlSession → W → ℕ → Result SessionError ((CurlSession × W) × Bytes)
  read_socket s w n = do
    (w', b) ← read_from_socket w n
    require (not (is_cut_short s (length b))) incomplete_body
    ok ((record s { session_total_read = s.session_total_read + length b }, w'), b)

  -- A read, when there is a chunk to read or none is used.
  unfoldable pub read_at :
      CurlSession → W → ℕ → Option ℕ → Result SessionError ((CurlSession × W) × Bytes)
  read_at s w n (some start) = let (s', b) = read_inner s start n in ok ((s', w), b)
  read_at s w n none =
      if is_length s.content_length s.session_total_read || is_eof s
      then ok ((s, w), [])
      else read_socket s w n

  unfoldable pub read_bytes : CurlSession → W → ℕ → Result SessionError ((CurlSession × W) × Bytes)
  read_bytes s w count = read_at s w (read_request_length s count) s.body_start_in_buffer

  abbrev pub ReadResult : Type 0
  ReadResult = Option (Result SessionError ((CurlSession × W) × Bytes))

  unfoldable pub read_after_chunk : ℕ → ChunkResult → ReadResult
  read_after_chunk count none = none
  read_after_chunk count (some (err e)) = some (err e)
  read_after_chunk count (some (ok (s, w))) =
      if s.is_chunked_response_type && is_eof s
      then some (ok ((s, w), []))
      else some (read_bytes s w count)

  -- `CurlSession::Read`, with fuel for `ParseChunkSize`.
  unfoldable pub session_read : ℕ → CurlSession × W → ℕ → ReadResult
  session_read fuel (s, w) count =
      if count == 0 || is_eof s
      then some (ok ((s, w), []))
      else read_after_chunk count (next_chunk fuel s w)
