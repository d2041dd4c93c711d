-- ===== src/Http/Curl/Parser.antt =====
-- `CreateHTTPResponse` and `ResponseBufferParser` of sdk/core/azure-core/src/http/curl/curl.cpp. A pointer
-- into a buffer is the list of the bytes from it on.
pub mod Agreement
pub mod ByteSteps
pub mod Scan
pub mod Lines
pub mod Simulation
pub mod Head
use azure_sdk_for_cpp.Base.{
  ℕ, zero, suc, ◌+◌, ◌-◌, ◌%◌, ◌^◌, Bool, true, false, not, ◌&&◌, ◌||◌, List, [], ◌∷◌, ◌++◌, Option,
  none, some, ltb, leb, ◌==◌, if◌then◌else◌, length, take, drop, Bytes, until, from, is_decimal,
  decimal, is_empty, Result, ok, err, ◌>>=◌, ◌>>◌, require,
}
use azure_sdk_for_cpp.Http.Headers.{HeaderError, add_header_line}
use azure_sdk_for_cpp.Http.Response.{RawResponse}

pub data ParseError : Type 0 where
  bad_status_line unexpected_state : ParseError
  bad_header : HeaderError → ParseError

-- `std::isspace` in the C locale.
abbrev pub is_white : ℕ → Bool
is_white c = c == b' ' || leb b'\t' c && leb c b'\r'

abbrev pub skip_plus : Bytes → Bytes
skip_plus [] = []
skip_plus (c ∷ s) = if c == b'+' then s else c ∷ s

-- `std::stoi`. A negative number, which no response has, counts as malformed.
unfoldable pub read_number : Bytes → Result ParseError ℕ
read_number s = do
  let digits = until (λ c. not (is_decimal c)) (skip_plus (from (λ c. not (is_white c)) s))
  require (not (is_empty digits)) bad_status_line
  require (leb (decimal 0 digits) 2_147_483_647) bad_status_line
  ok (decimal 0 digits)

abbrev pub is_dot : ℕ → Bool
is_dot c = c == b'.'

abbrev pub is_blank_space : ℕ → Bool
is_blank_space c = c == b' '

abbrev pub is_carriage_return : ℕ → Bool
is_carriage_return c = c == b'\r'

-- `CreateHTTPResponse`. A line that ends before the reason phrase is read as if the rest were empty,
-- where the code reads on outside of it.
unfoldable pub create_http_response : Bytes → Result ParseError RawResponse
create_http_response line = do
  let version = drop 5 line
  major ← read_number (until is_dot version)
  let after_major = drop 1 (from is_dot version)
  minor ← read_number (until is_blank_space after_major)
  let after_minor = drop 1 (from is_blank_space after_major)
  code ← read_number (until is_blank_space after_minor)
  let after_code = drop 1 (from is_blank_space after_minor)
  ok (record {
    major_version = major % 2 ^ 16;
    minor_version = minor % 2 ^ 16;
    status_code = code;
    reason_phrase = until is_carriage_return after_code;
    headers = [];
  })

-- `ResponseParserState`
pub data ParserState : Type 0 where
  status_line header_lines end_of_headers : ParserState

pub record ResponseBufferParser : Type 0 where
  pub state : ParserState
  -- `none` for the null pointer.
  pub response : Option RawResponse
  pub parse_completed : Bool
  pub delimiter_start_in_prev_position : Bool
  pub internal_buffer : Bytes

abbrev pub new_parser : ResponseBufferParser
new_parser = record {
  state = status_line;
  response = none;
  parse_completed = false;
  delimiter_start_in_prev_position = false;
  internal_buffer = [];
}

abbrev pub with_headers :
    RawResponse → Result HeaderError (List (Bytes × Bytes)) → Result ParseError (Option RawResponse)
with_headers r (ok headers) = ok (some (record r { headers = headers }))
with_headers r (err e) = err (bad_header e)

-- `m_response->AddHeader`; the pointer is not null once the status line is read.
unfoldable pub add_response_header :
    Option RawResponse → Bytes → Result ParseError (Option RawResponse)
add_response_header none line = err unexpected_state
add_response_header (some r) line = with_headers r (add_header_line r.headers line)

-- A line that is complete, at the state of the parser.
unfoldable pub take_line : ResponseBufferParser → Bytes → Result ParseError ResponseBufferParser
take_line p line = elim p.state [
  | status_line ↦
      (create_http_response line >>= λ r. ok (record p {
        state = header_lines;
        response = some r;
        delimiter_start_in_prev_position = false;
        internal_buffer = [];
      }))
  | header_lines ↦
      (add_response_header p.response line >>= λ r.
      ok
        (record p { response = r; delimiter_start_in_prev_position = false; internal_buffer = [] }))
  | end_of_headers ↦ err unexpected_state
]

abbrev pub is_headers : ParserState → Bool
is_headers status_line = false
is_headers header_lines = true
is_headers end_of_headers = false

-- What a line feed after a carriage return does: the end of the head, or a line. The bytes from
-- `start` on are `from_start`.
pub data LineEnd : Type 0 where
  completed : ResponseBufferParser → LineEnd
  failed : ParseError → LineEnd
  next_line : ResponseBufferParser → LineEnd

abbrev pub next_or_failed : Result ParseError ResponseBufferParser → LineEnd
next_or_failed (ok p) = next_line p
next_or_failed (err e) = failed e

unfoldable pub end_line : Bytes → ℕ → ℕ → ResponseBufferParser → LineEnd
end_line from_start start index p =
    let text = take (index - 1 - start) from_start in
    if not (is_empty p.internal_buffer)
    then next_or_failed
        (take_line p (if ltb 1 index then p.internal_buffer ++ text else p.internal_buffer))
    else if is_headers p.state && (index == 0 || index == suc start)
    then completed (record p { parse_completed = true })
    else next_or_failed (take_line p text)

-- The end of the buffer: what is not parsed is kept.
unfoldable pub keep_rest : Bytes → ℕ → ℕ → ResponseBufferParser → ResponseBufferParser
keep_rest from_start start size p =
    let kept =
      take (size - (if p.delimiter_start_in_prev_position then 1 else 0) - start) from_start in
    if ltb start size then record p { internal_buffer = p.internal_buffer ++ kept } else p

-- A byte that is neither a carriage return nor ends a line.
unfoldable pub pass_byte : ℕ → ResponseBufferParser → ResponseBufferParser
pass_byte index p =
    let internal =
      if index == 0 && not (is_empty p.internal_buffer) && p.delimiter_start_in_prev_position
      then p.internal_buffer ++ b'\r' ∷ []
      else p.internal_buffer in
    record p { internal_buffer = internal; delimiter_start_in_prev_position = false }

-- A round of the loop: the new bytes from `start` on, the new `start` and the new state, or the result.
pub data Round : Type 0 where
  go : Bytes → ℕ → ResponseBufferParser → Round
  stop : Result ParseError (ResponseBufferParser × ℕ) → Round

unfoldable pub after_line : Bytes → ℕ → LineEnd → Round
after_line rest index (completed p) = stop (ok (p, suc index))
after_line rest index (failed e) = stop (err e)
after_line rest index (next_line p) = go rest (suc index) p

unfoldable pub parse_byte : Bytes → ℕ → ℕ → ResponseBufferParser → ℕ → Bytes → Round
parse_byte from_start start index p c rest =
    if c == b'\r'
    then go from_start start (record p { delimiter_start_in_prev_position = true })
    else if c == b'\n' && p.delimiter_start_in_prev_position
    then after_line rest index (end_line from_start start index p)
    else go from_start start (pass_byte index p)

abbrev pub continue :
    (Bytes → ℕ → ResponseBufferParser → Result ParseError (ResponseBufferParser × ℕ))
    → Round
    → Result ParseError (ResponseBufferParser × ℕ)
continue f (stop result) = result
continue f (go from_start start p) = f from_start start p

-- The loop of `Parse` over the bytes from `index` on.
unfoldable pub parse_loop :
    Bytes → ℕ → ℕ → ResponseBufferParser → Bytes → Result ParseError (ResponseBufferParser × ℕ)
parse_loop from_start start index p [] = ok (keep_rest from_start start index p, index)
parse_loop from_start start index p (c ∷ rest) =
    continue (λ from_start' start' p'. parse_loop from_start' start' (suc index) p' rest)
      (parse_byte from_start start index p c rest)

-- `ResponseBufferParser::Parse`
unfoldable pub parse_buffer :
    ResponseBufferParser → Bytes → Result ParseError (ResponseBufferParser × ℕ)
parse_buffer p buffer = if p.parse_completed then ok (p, 0) else parse_loop buffer 0 0 p buffer
