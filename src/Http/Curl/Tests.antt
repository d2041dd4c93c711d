-- ===== src/Http/Curl/Tests.antt =====
-- The theorems on the transport of libcurl, at a connection that yields three bytes at a time.
use azure_sdk_for_cpp.Base.{
  ℕ, zero, suc, min, ◌≡◌, refl, sym, true, false, ◌⊎◌, inl, inr, List, [], ◌∷◌, ◌++◌, none, some,
  length, length-take, take, drop, take-append-drop, Bytes, none_passes-Without, codes, decimal,
  ◌≤◌, Result, Returns, ok, arith,
}
use azure_sdk_for_cpp.Strings.{to_lower, to_lower_char}
use azure_sdk_for_cpp.Dict.{find, assign}
use azure_sdk_for_cpp.Http.Url.{hex_value}
use azure_sdk_for_cpp.Http.Headers.{is_valid_name, add_header_line, insert_header_with_validation}
use azure_sdk_for_cpp.Http.Response.{RawResponse}
use azure_sdk_for_cpp.Http.Streams.{IsStream, read_to_end}
use azure_sdk_for_cpp.Base.{length-nil}
use azure_sdk_for_cpp.Http.Curl.Parser.{
  new_parser, is_carriage_return, parse_buffer, create_http_response, read_number,
  add_response_header,
}
use azure_sdk_for_cpp.Http.Curl.Parser.Scan.{scan}
use azure_sdk_for_cpp.Http.Curl.Parser.Simulation.{AgreeResult, parse_buffer-AgreeResult}
use azure_sdk_for_cpp.Http.Curl.Parser.Head.{head_text, head_response}
use azure_sdk_for_cpp.Http.Curl.Session.{
  SessionError, CurlSession, read_head, chunk_loop, read_length, read_chunk_size, line_feed_at,
  hexadecimal, pull, follow_pull, chunk_line,
}
use azure_sdk_for_cpp.Http.Curl.Body.{
  session_read, next_chunk, read_after_chunk, read_bytes, read_at, read_inner, read_request_length,
  content_limit, skip_one, follow_skips,
}
use azure_sdk_for_cpp.Http.Curl.Session.{is_eof}
use azure_sdk_for_cpp.Http.Curl.Body.Plain.{plain_read}
use azure_sdk_for_cpp.Http.Curl.Body.Whole.{read_to_end-read_head}
use azure_sdk_for_cpp.Http.Curl.Body.Chunks.{chunk_loop-closed}

-- A socket on a text.
abbrev wire_read : Bytes → ℕ → Result SessionError (Bytes × Bytes)
wire_read w n = ok (drop (min n 3) w, take (min n 3) w)

abbrev wire_content : Bytes → Bytes
wire_content w = w

wire_read-IsStream : IsStream wire_read wire_content
unfolding IsStream
wire_read-IsStream w n =
    let l = length-take (min n 3) w in
    (omega arith, (sym (take-append-drop (min n 3) w), λ z. ended n w (omega arith)))
  where
    ended : (n : ℕ) (w : Bytes) → min (min n 3) (length w) ≡ 0 → (n ≡ 0) ⊎ (w ≡ [])
    ended zero w e = inl refl
    ended (suc n) w e = inr (length-nil w (omega arith))

abbrev session : CurlSession
session = record {
  is_streaming = true;
  is_head_request = false;
  response = none;
  read_buffer = [];
  inner_buffer_size = 0;
  body_start_in_buffer = none;
  is_chunked_response_type = false;
  content_length = none;
  chunk_size = 0;
  session_total_read = 0;
}

abbrev status : Bytes
status = codes "HTTP/1.1 200 OK"

abbrev fields : List Bytes
fields = codes "Content-Length: 5" ∷ codes "A:b" ∷ []

abbrev hello_response : RawResponse
hello_response = record {
  major_version = 1;
  minor_version = 1;
  status_code = 200;
  reason_phrase = codes "OK";
  headers = (codes "a", codes "b") ∷ (codes "content-length", codes "5") ∷ [];
}

hello_head : head_response status fields ≡ ok (some hello_response)
unfolding create_http_response read_number add_response_header add_header_line
    insert_header_with_validation is_valid_name to_lower assign decimal to_lower_char
hello_head = refl

abbrev hello : Bytes
hello = head_text status fields ++ codes "hello, and more"

read_to_end-read_head_example :
    Returns
      (λ x.
        (x.0.response ≡ some hello_response)
        × Returns
            (λ (y, b).
              (b ≡ take 5 (codes "hello, and more")) × (5 ≤ length (codes "hello, and more")))
            (read_to_end (plain_read wire_read) 1 x []))
      (read_head wire_read 70 false session hello)
unfolding read_length find decimal
read_to_end-read_head_example =
    read_to_end-read_head wire_read wire_content 70 1 4 session hello status fields
      (codes "hello, and more") hello_response (codes "5") wire_read-IsStream refl refl refl refl
      refl (none_passes-Without is_carriage_return status refl)
      (
        (none_passes-Without is_carriage_return (codes "Content-Length: 5") refl, refl),
        ((none_passes-Without is_carriage_return (codes "A:b") refl, refl), tt),
      )
      (omega arith) hello_head refl refl refl (omega arith)

parse_buffer-AgreeResult_example :
    AgreeResult
      (codes "HTTP/1.1 200 OK\r")
      16
      (parse_buffer new_parser (codes "HTTP/1.1 200 OK\r"))
      (scan (record { line = []; returned = false; response = none }) (codes "HTTP/1.1 200 OK\r"))
parse_buffer-AgreeResult_example =
    parse_buffer-AgreeResult new_parser (record { line = []; returned = false; response = none })
      (codes "HTTP/1.1 200 OK\r")
      (record {
        response = refl;
        state = refl;
        delimiter = refl;
        incomplete = refl;
        line = refl;
        size = omega arith;
        behind = λ k. inl refl;
      })

-- The size of a chunk is in the buffer up to its last digit, and the server has closed the connection.
abbrev at_size : Bytes → CurlSession
at_size text = record session {
  read_buffer = text;
  inner_buffer_size = length text;
  body_start_in_buffer = some 0;
  is_chunked_response_type = true;
}

chunk_loop-closed_example : chunk_loop wire_read 100 [] (at_size (codes "1f")) [] ≡ none
unfolding line_feed_at
chunk_loop-closed_example = chunk_loop-closed wire_read 100 [] (at_size (codes "1f")) [] refl refl

-- The line feed is the second byte that the socket yields, and is not seen: the chunk is taken to start
-- after the next one.
unseen_line_feed :
    chunk_loop wire_read 9 [] (at_size (codes "1f")) (codes "\r\nab\r\ncd")
    ≡ some (
        ok (
          record (at_size (codes "1f")) {
            read_buffer = codes "cd\n";
            inner_buffer_size = 2;
            body_start_in_buffer = some 0;
            chunk_size = 31;
          },
          [],
        ))
unfolding chunk_loop line_feed_at pull follow_pull chunk_line read_chunk_size hexadecimal hex_value
unseen_line_feed = refl

-- A response of two chunks, which are read one after another up to the last one.
abbrev chunks : ℕ → ℕ → ℕ → CurlSession
chunks start size read = record (at_size (codes "5\r\nhello\r\n3\r\nabc\r\n0\r\n\r\n")) {
  body_start_in_buffer = some start;
  chunk_size = size;
  session_total_read = read;
}

first_chunk :
    session_read wire_read 9 (chunks 3 5 0, []) 10 ≡ some (ok ((chunks 8 5 5, []), codes "hello"))
unfolding session_read next_chunk read_after_chunk is_eof read_bytes read_at read_inner
    read_request_length content_limit
first_chunk = refl

second_chunk :
    session_read wire_read 9 (chunks 8 5 5, []) 10 ≡ some (ok ((chunks 16 3 3, []), codes "abc"))
unfolding session_read next_chunk read_after_chunk is_eof read_bytes read_at read_inner
    read_request_length content_limit skip_one follow_skips chunk_loop line_feed_at read_chunk_size
    hexadecimal hex_value chunk_line
second_chunk = refl

last_chunk : session_read wire_read 9 (chunks 16 3 3, []) 10 ≡ some (ok ((chunks 18 0 0, []), []))
unfolding session_read next_chunk read_after_chunk is_eof read_bytes read_at read_inner
    read_request_length content_limit skip_one follow_skips chunk_loop line_feed_at read_chunk_size
    hexadecimal hex_value chunk_line
last_chunk = refl
