-- ===== src/Http/Curl/Parser/Scan.antt =====
-- The head of a response read byte by byte, without buffers: what the parser of curl.cpp is held against.
use azure_sdk_for_cpp.Base.{
  ℕ, ◌≡◌, refl, Bool, true, false, not, ◌&&◌, [], ◌∷◌, ◌++◌, Option, none, some, ◌==◌,
  if◌then◌else◌, Bytes, is_empty, Result, ok, err, ◌>>=◌, Bool-cases, inl, inr,
}
use azure_sdk_for_cpp.Http.Response.{RawResponse}
use azure_sdk_for_cpp.Http.Curl.Parser.{ParseError, create_http_response, add_response_header}

-- The line so far, whether a carriage return came after it, and the response, if the status line
-- was read.
pub record Scan : Type 0 where
  pub line : Bytes
  pub returned : Bool
  pub response : Option RawResponse

-- More bytes are wanted; the head ended, and these bytes come after it; a line is bad; a carriage
-- return stands alone.
pub data Scanned : Type 0 where
  more : Scan → Scanned
  done : Option RawResponse → Bytes → Scanned
  bad : ParseError → Scanned
  stray : Scanned

abbrev pub line_result : Option RawResponse → Bytes → Result ParseError (Option RawResponse)
line_result none line = create_http_response line >>= λ r. ok (some r)
line_result (some r) line = add_response_header (some r) line

abbrev pub has_response : Option RawResponse → Bool
has_response none = false
has_response (some r) = true

pub data Move : Type 0 where
  on : Scan → Move
  off : Scanned → Move

abbrev pub line_move : Result ParseError (Option RawResponse) → Move
line_move (ok r) = on (record { line = []; returned = false; response = r })
line_move (err e) = off (bad e)

-- A line feed after a carriage return.
unfoldable pub scan_line_feed : Scan → Bytes → Move
scan_line_feed a rest =
    if is_empty a.line && has_response a.response
    then off (done a.response rest)
    else line_move (line_result a.response a.line)

unfoldable pub scan_byte : Scan → ℕ → Bytes → Move
scan_byte a c rest =
    if c == b'\r'
    then (if a.returned then off stray else on (record a { returned = true }))
    else if not a.returned
    then on (record a { line = a.line ++ c ∷ [] })
    else if c == b'\n'
    then scan_line_feed a rest
    else off stray

abbrev pub follow : (Scan → Scanned) → Move → Scanned
follow f (on b) = f b
follow f (off o) = o

unfoldable pub scan : Scan → Bytes → Scanned
scan a [] = more a
scan a (c ∷ rest) = follow (λ b. scan b rest) (scan_byte a c rest)

-- The scan of more bytes after these.
abbrev pub then_scan : Scanned → Bytes → Scanned
then_scan (more a) s = scan a s
then_scan (done r rest) s = done r (rest ++ s)
then_scan (bad e) s = bad e
then_scan stray s = stray

abbrev then_move : Move → Bytes → Move
then_move (on a) s = on a
then_move (off o) s = off (then_scan o s)

line_move-append :
    (r : Result ParseError (Option RawResponse)) (y : Bytes)
    → line_move r ≡ then_move (line_move r) y
line_move-append (ok r) y = refl
line_move-append (err e) y = refl

scan_line_feed-append :
    (a : Scan) (x y : Bytes) → scan_line_feed a (x ++ y) ≡ then_move (scan_line_feed a x) y
unfolding scan_line_feed
scan_line_feed-append a x y = elim (Bool-cases (is_empty a.line && has_response a.response)) [
  | inl e ↦ rw e refl
  | inr e ↦ rw e (line_move-append (line_result a.response a.line) y)
]

scan_byte-append :
    (a : Scan) (c : ℕ) (x y : Bytes) → scan_byte a c (x ++ y) ≡ then_move (scan_byte a c x) y
unfolding scan_byte scan_line_feed
scan_byte-append a c x y = elim (Bool-cases (c == b'\r')) [
  | inl e ↦ elim (Bool-cases a.returned) [ inl f ↦ rw (e, f) refl | inr f ↦ rw (e, f) refl ]
  | inr e ↦ elim (Bool-cases a.returned) [
    | inl f ↦ elim (Bool-cases (c == b'\n')) [
      | inl g ↦ rw (e, f, g) (scan_line_feed-append a x y)
      | inr g ↦ rw (e, f, g) refl
    ]
    | inr f ↦ rw (e, f) refl
  ]
]

moved-append :
    (x y : Bytes) (m : Move)
    → ((b : Scan) → scan b (x ++ y) ≡ then_scan (scan b x) y)
    → follow (λ b. scan b (x ++ y)) (then_move m y) ≡ then_scan (follow (λ b. scan b x) m) y
moved-append x y (on b) h = h b
moved-append x y (off o) h = refl

pub scan-append : (a : Scan) (x y : Bytes) → scan a (x ++ y) ≡ then_scan (scan a x) y
unfolding scan
scan-append a [] y = refl
scan-append a (c ∷ x) y =
    rw (scan_byte-append a c x y) (moved-append x y (scan_byte a c x) (λ b. scan-append b x y))
