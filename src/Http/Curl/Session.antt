-- ===== src/Http/Curl/Session.antt =====
-- `CurlSession` of sdk/core/azure-core/src/http/curl/curl.cpp: reading the head of a response from a
-- connection. The socket is a parameter, with the state `W` of the connection; a state that is canceled is not modelled.
pub mod Pending
pub mod Head
use azure_sdk_for_cpp.Base.{
  ℕ, zero, suc, ◌+◌, ◌-◌, ◌*◌, ◌^◌, min, Bool, true, false, not, ◌&&◌, ◌||◌, List, [], ◌∷◌, ◌++◌,
  Option, none, some, ltb, leb, ◌==◌, if◌then◌else◌, length, take, drop, get_or, Bytes, codes,
  until, from, is_decimal, decimal, is_empty, eqb, Result, ok, err, ◌>>=◌, ◌>>◌, require,
}
use azure_sdk_for_cpp.Dict.{find}
use azure_sdk_for_cpp.Http.Url.{hex_value}
use azure_sdk_for_cpp.Http.Response.{RawResponse}
use azure_sdk_for_cpp.Http.Curl.Parser.{
  ParseError, ResponseBufferParser, new_parser, parse_buffer, is_white, skip_plus,
}

-- What a session throws. `socket_failure` is what `ReadFromSocket` throws.
pub data SessionError : Type 0 where
  socket_failure connection_closed bad_length out_of_range incomplete_body : SessionError
  parse_failure : ParseError → SessionError

-- `c_DefaultLibcurlReaderSize`
abbrev pub reader_size : ℕ
reader_size = 1024

pub record CurlSession : Type 0 where
  -- `m_sessionState` is not `PERFORM`.
  pub is_streaming : Bool
  pub is_head_request : Bool
  pub response : Option RawResponse
  pub read_buffer : Bytes
  pub inner_buffer_size : ℕ
  -- `none` for -1, here and in the length of the content.
  pub body_start_in_buffer : Option ℕ
  pub is_chunked_response_type : Bool
  pub content_length : Option ℕ
  pub chunk_size : ℕ
  pub session_total_read : ℕ

-- `std::stoull`, of a number without a minus sign and below 2 ^ 63; any other text counts as malformed.
unfoldable pub read_length : Bytes → Result SessionError ℕ
read_length s = do
  let digits = until (λ c. not (is_decimal c)) (skip_plus (from (λ c. not (is_white c)) s))
  require (not (is_empty digits)) bad_length
  require (ltb (decimal 0 digits) (2 ^ 63)) bad_length
  ok (decimal 0 digits)

abbrev pub is_some {ℓ} : {A : Type ℓ} → Option A → Bool
is_some none = false
is_some (some a) = true

abbrev pub is_hex : ℕ → Bool
is_hex c = is_some (hex_value c)

-- The value of hexadecimal digits after those that were read before them.
unfoldable pub hexadecimal : ℕ → Bytes → ℕ
hexadecimal acc [] = acc
hexadecimal acc (c ∷ s) = hexadecimal (acc * 16 + (elim (hex_value c) [ none ↦ 0 | some v ↦ v ])) s

-- `std::stoull(s, nullptr, 16)` without a prefix `0x`, and 0 where it finds no digit. A number from
-- 2 ^ 64 on throws what the code does not catch; one from 2 ^ 63 on, which the cast to `int64_t` makes
-- negative, is not modelled, and is refused here as well.
unfoldable pub read_chunk_size : Bytes → Result SessionError ℕ
read_chunk_size s = do
  let digits = until (λ c. not (is_hex c)) (skip_plus (from (λ c. not (is_white c)) s))
  require (ltb (hexadecimal 0 digits) (2 ^ 63)) out_of_range
  ok (hexadecimal 0 digits)

-- What `ReadFromSocket` puts at the start of the buffer.
abbrev pub fill : Bytes → Bytes → Bytes
fill b buffer = b ++ drop (length b) buffer

abbrev pub start_of : Option ℕ → ℕ
start_of none = 0
start_of (some i) = i

-- The bytes of the internal buffer from a position on.
abbrev pub unread : CurlSession → ℕ → Bytes
unread s start = take (s.inner_buffer_size - start) (drop start s.read_buffer)

abbrev pub is_length : Option ℕ → ℕ → Bool
is_length none n = false
is_length (some m) n = m == n

unfoldable pub is_eof : CurlSession → Bool
is_eof s =
    (if s.is_chunked_response_type
      then s.chunk_size == 0
      else is_length s.content_length s.session_total_read)
    && s.is_streaming

-- Where the first line feed stands after more than two bytes, the first of which is number `i`.
unfoldable pub line_feed_at : ℕ → Bytes → Option ℕ
line_feed_at i [] = none
line_feed_at i (c ∷ s) =
    let rest = line_feed_at (suc i) s in if ltb 1 i && c == b'\n' then some i else rest

-- Whether the text has the letters of `chunked` somewhere.
unfoldable pub has_chunked : Bytes → Bool
has_chunked [] = false
has_chunked (c ∷ s) = let rest = has_chunked s in eqb (take 7 (c ∷ s)) (codes "chunked") || rest

abbrev pub lift_parse :
    Result ParseError (ResponseBufferParser × ℕ) → Result SessionError (ResponseBufferParser × ℕ)
lift_parse (ok r) = ok r
lift_parse (err e) = err (parse_failure e)

abbrev pub body_start : ℕ → ℕ → Option ℕ → Option ℕ
body_start parsed size start = if ltb parsed size then some parsed else start

module _ {W : Type 0} (read_from_socket : W → ℕ → Result SessionError (W × Bytes)) where
  -- `m_innerBufferSize = m_connection->ReadFromSocket(context, m_readBuffer, c_DefaultLibcurlReaderSize)`
  unfoldable pub pull : CurlSession → W → Result SessionError (CurlSession × W)
  pull s w = do
    (w', b) ← read_from_socket w reader_size
    ok (record s { read_buffer = fill b s.read_buffer; inner_buffer_size = length b }, w')

  -- A buffer for the parser: the rest of the internal buffer, or the next bytes of the socket.
  unfoldable pub next_buffer :
      Bool → CurlSession → W → Result SessionError (Bytes × (CurlSession × W))
  next_buffer true s w =
      ok (unread s (start_of s.body_start_in_buffer), (record s { body_start_in_buffer = none }, w))
  next_buffer false s w = do
    (s', w') ← pull s w
    require (not (s'.inner_buffer_size == 0)) connection_closed
    ok (take s'.inner_buffer_size s'.read_buffer, (s', w'))

  -- A round of the loop of `ReadStatusLineAndHeadersFromRawResponse`, with the size of its buffer.
  unfoldable pub head_round :
      Bool
      → ResponseBufferParser
      → CurlSession
      → W
      → Result SessionError (ResponseBufferParser × ((CurlSession × ℕ) × W))
  head_round reuse parser s w = do
    (buffer, (s', w')) ← next_buffer reuse s w
    (parser', parsed) ← lift_parse (parse_buffer parser buffer)
    ok (
      parser',
      (
        (
          record s' {
            body_start_in_buffer = body_start parsed (length buffer) s'.body_start_in_buffer;
          },
          length buffer,
        ),
        w',
      ),
    )

  -- The loop. Its result has the response and the size of the last buffer.
  abbrev pub HeadResult : Type 0
  HeadResult = Option (Result SessionError ((Option RawResponse × (CurlSession × ℕ)) × W))

  unfoldable pub follow_round :
      (ResponseBufferParser → CurlSession → W → HeadResult)
      → Result SessionError (ResponseBufferParser × ((CurlSession × ℕ) × W))
      → HeadResult
  follow_round again (err e) = some (err e)
  follow_round again (ok (parser, ((s, size), w))) =
      if parser.parse_completed
      then some (ok ((parser.response, (s, size)), w))
      else again parser s w

  unfoldable pub head_loop : ℕ → Bool → ResponseBufferParser → CurlSession → W → HeadResult
  head_loop zero reuse parser s w = none
  head_loop (suc fuel) reuse parser s w =
      follow_round (head_loop fuel false) (head_round reuse parser s w)

  -- `ParseChunkSize` from where it has read a part of the size.
  abbrev pub ChunkResult : Type 0
  ChunkResult = Option (Result SessionError (CurlSession × W))

  -- The line feed was found at this position.
  unfoldable pub chunk_line : CurlSession → W → ℕ → ℕ → Result SessionError (CurlSession × W)
  chunk_line s w index size =
      if size == 0
      then ok (record s { chunk_size = 0 }, w)
      else if suc index == s.inner_buffer_size
      then (do
        (s', w') ← pull s w
        ok (record s' { chunk_size = size; body_start_in_buffer = some 0 }, w'))
      else ok (record s { chunk_size = size; body_start_in_buffer = some (suc index) }, w)

  unfoldable pub follow_pull :
      (CurlSession → W → ChunkResult) → Result SessionError (CurlSession × W) → ChunkResult
  follow_pull again (err e) = some (err e)
  follow_pull again (ok (s, w)) = again (record s { body_start_in_buffer = some 0 }) w

  unfoldable pub chunk_loop : ℕ → Bytes → CurlSession → W → ChunkResult
  chunk_loop zero text s w = none
  chunk_loop (suc fuel) text s w =
      let start = start_of s.body_start_in_buffer in
      let buffered = unread s start in
      let rest = follow_pull (chunk_loop fuel (text ++ buffered)) (pull s w) in
      elim (line_feed_at 0 buffered) [
        | none ↦ rest
        | some i ↦ some (do
          size ← read_chunk_size (text ++ take (suc i) buffered)
          chunk_line s w (start + i) size)
      ]

  -- The first chunk, of which something may be in the buffer.
  unfoldable pub set_chunked : ℕ → CurlSession → W → ChunkResult
  set_chunked fuel s w =
      let t : CurlSession = record s { is_chunked_response_type = true } in
      if is_some t.body_start_in_buffer
      then chunk_loop fuel [] t w
      else follow_pull (chunk_loop fuel []) (pull t w)

  -- What `ReadStatusLineAndHeadersFromRawResponse` does after its loop, for a response.
  unfoldable pub set_body_length : ℕ → CurlSession → RawResponse → W → ChunkResult
  set_body_length fuel s r w =
      if s.is_head_request || r.status_code == 204
      then some (ok (record s { content_length = some 0; body_start_in_buffer = none }, w))
      else elim (find (codes "content-length") r.headers) [
        | some value ↦ some (do n ← read_length value; ok (record s { content_length = some n }, w))
        | none ↦
            let t : CurlSession = record s { content_length = none } in
            elim (find (codes "transfer-encoding") r.headers) [
              | none ↦ some (ok (t, w))
              | some value ↦
                  if not (has_chunked value) then some (ok (t, w)) else set_chunked fuel t w
            ]
      ]

  -- What comes after the loop over the head. A response that is completed is not null.
  unfoldable pub finish_head :
      ℕ → Option (Result SessionError ((Option RawResponse × (CurlSession × ℕ)) × W)) → ChunkResult
  finish_head fuel none = none
  finish_head fuel (some (err e)) = some (err e)
  finish_head fuel (some (ok ((none, (s, size)), w))) = some (err connection_closed)
  finish_head fuel (some (ok ((some r, (s, size)), w))) =
      set_body_length fuel (record s { response = some r; inner_buffer_size = size }) r w

  -- `ReadStatusLineAndHeadersFromRawResponse`, with fuel for its two loops.
  unfoldable pub read_head : ℕ → Bool → CurlSession → W → ChunkResult
  read_head fuel reuse s w = finish_head fuel (head_loop fuel reuse new_parser s w)
