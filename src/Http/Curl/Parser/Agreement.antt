-- ===== src/Http/Curl/Parser/Agreement.antt =====
-- The parser of curl.cpp and the scan of a response in step with each other, and a line for each of them.
use azure_sdk_for_cpp.Base.{
  ℕ, suc, ◌+◌, ◌-◌, ◌≡◌, refl, ap, ◌<◌, ◌⊎◌, Bool, true, false, List, [], ◌∷◌, ◌++◌, Option, none,
  some, length, take, Bytes, Result, ok, err, ◌>>=◌, arith,
}
use azure_sdk_for_cpp.Http.Headers.{HeaderError, add_header_line}
use azure_sdk_for_cpp.Http.Response.{RawResponse}
use azure_sdk_for_cpp.Http.Url.{pop_back}
use azure_sdk_for_cpp.Http.Curl.Parser.{
  ParseError, ParserState, status_line, header_lines, ResponseBufferParser, next_or_failed,
  with_headers, Round, go, stop, create_http_response, add_response_header, take_line, after_line,
}
use azure_sdk_for_cpp.Http.Curl.Parser.Scan.{
  Scan, done, bad, stray, Move, on, off, line_result, line_move,
}

abbrev pub state_of : Option RawResponse → ParserState
state_of none = status_line
state_of (some r) = header_lines

-- What is in the buffer of the line so far.
abbrev pub strip : Bool → Bytes → Bytes
strip false seg = seg
strip true seg = pop_back seg

-- The parser and the scan agree: the segment is what stands in the buffer from `start` to `index`.
pub record Agree (seg : Bytes) (start index : ℕ) (p : ResponseBufferParser) (a : Scan)
    : Type 0 where
  pub response : p.response ≡ a.response
  pub state : p.state ≡ state_of a.response
  pub delimiter : p.delimiter_start_in_prev_position ≡ a.returned
  pub incomplete : p.parse_completed ≡ false
  pub line : p.internal_buffer ++ strip a.returned seg ≡ a.line
  pub size : start + length seg ≡ index
  pub behind : a.returned ≡ true → (index ≡ 0) ⊎ (0 < length seg)

pub take-pop_back : (seg rest : Bytes) → take (length seg - 1) (seg ++ rest) ≡ pop_back seg
unfolding pop_back
take-pop_back [] rest = refl
take-pop_back (x ∷ []) rest = refl
take-pop_back (x ∷ y ∷ seg) rest =
    let e : suc (suc (length seg)) - 1 ≡ suc (suc (length seg) - 1) = omega arith in
    rw (e, take-pop_back (y ∷ seg) rest) refl

pub take-length : (seg rest : Bytes) → take (length seg) (seg ++ rest) ≡ seg
take-length [] rest = refl
take-length (x ∷ seg) rest = ap (◌∷◌ x) (take-length seg rest)

-- The state is in step with the response after a line.
pub Stepped :
    Result ParseError ResponseBufferParser → Result ParseError (Option RawResponse) → Type 0
Stepped (ok q) (ok r) =
    ((q.response ≡ r) × (q.state ≡ state_of r))
    × ((q.delimiter_start_in_prev_position ≡ false)
        × ((q.parse_completed ≡ false) × (q.internal_buffer ≡ [])))
Stepped (err e) (err f) = e ≡ f
Stepped (ok q) (err f) = ⊥
Stepped (err e) (ok r) = ⊥

pub take_line-Stepped :
    (p : ResponseBufferParser) (line : Bytes) (response : Option RawResponse)
    → p.response ≡ response
    → p.state ≡ state_of response
    → p.parse_completed ≡ false
    → Stepped (take_line p line) (line_result response line)
unfolding Stepped take_line add_response_header
take_line-Stepped p line none e s c = rw (take_line, s) (status (create_http_response line))
  where
    status :
        (o : Result ParseError RawResponse)
        → Stepped
            (o >>= λ r. ok (record p {
              state = header_lines;
              response = some r;
              delimiter_start_in_prev_position = false;
              internal_buffer = [];
            }))
            (o >>= λ r. ok (some r))
    status (ok r) = ((refl, refl), (refl, (c, refl)))
    status (err f) = refl
take_line-Stepped p line (some r) e s c =
    rw (take_line, s, e) (added (add_header_line r.headers line))
  where
    added :
        (o : Result HeaderError (List (Bytes × Bytes)))
        → Stepped
            (with_headers r o >>= λ r. ok (record p {
              response = r;
              delimiter_start_in_prev_position = false;
              internal_buffer = [];
            }))
            (with_headers r o)
    added (ok h) = ((refl, s), (refl, (c, refl)))
    added (err f) = refl

-- The round of the parser and the move of the scan.
unfoldable pub AgreeRound : Bytes → ℕ → Round → Move → Type 0
AgreeRound rest index (go from_start start p) (on b) =
    (seg : Bytes) × ((from_start ≡ seg ++ rest) × Agree seg start (suc index) p b)
AgreeRound rest index (stop (ok (q, n))) (off (done r after)) =
    ((q.parse_completed ≡ true) × (q.response ≡ r)) × ((n ≡ suc index) × (after ≡ rest))
AgreeRound rest index (stop (err e)) (off (bad f)) = e ≡ f
AgreeRound rest index _ (off stray) = Unit {0}
AgreeRound rest index _ _ = ⊥

-- After a line the parser is at the start of the next one.
pub next-AgreeRound :
    (rest : Bytes) (index : ℕ) (o : Result ParseError ResponseBufferParser)
    (l : Result ParseError (Option RawResponse))
    → Stepped o l
    → AgreeRound rest index (after_line rest index (next_or_failed o)) (line_move l)
unfolding Stepped AgreeRound after_line
next-AgreeRound rest index (ok q) (ok r) ((e, f), (g, (h, i))) = (
  [],
  (
    refl,
    record {
      response = e;
      state = f;
      delimiter = g;
      incomplete = h;
      line = rw i refl;
      size = omega arith;
      behind = λ k. absurd cc;
    },
  ),
)
next-AgreeRound rest index (err e) (err f) h = h
next-AgreeRound rest index (ok q) (err f) h = absurd h
next-AgreeRound rest index (err e) (ok f) h = absurd h
