-- ===== src/Http/Curl/Parser/Head.antt =====
-- The head of a response as a text of lines, and what reading it yields.
use mathlib.Core.List.{append_assoc, append-nil}
use azure_sdk_for_cpp.Base.{
  ◌≡◌, refl, ◌∙◌, sym, ap, Bool, true, false, ◌&&◌, List, [], ◌∷◌, ◌++◌, Option, none, some, Bytes,
  is_empty, Result, ok, err, ◌>>=◌, Without,
}
use azure_sdk_for_cpp.Http.Headers.{HeaderError, add_header_line}
use azure_sdk_for_cpp.Http.Response.{RawResponse}
use azure_sdk_for_cpp.Http.Curl.Parser.{
  ParseError, create_http_response, add_response_header, with_headers, is_carriage_return,
}
use azure_sdk_for_cpp.Http.Curl.Parser.Scan.{
  Scanned, done, bad, line_move, follow, scan_line_feed, scan_byte, scan,
}

-- The header lines and the empty line.
abbrev pub header_text : List Bytes → Bytes
header_text [] = b'\r' ∷ b'\n' ∷ []
header_text (h ∷ hs) = h ++ (b'\r' ∷ b'\n' ∷ header_text hs)

abbrev pub head_text : Bytes → List Bytes → Bytes
head_text status hs = status ++ (b'\r' ∷ b'\n' ∷ header_text hs)

-- The response of the status line with each of the headers added.
abbrev pub add_lines : Option RawResponse → List Bytes → Result ParseError (Option RawResponse)
add_lines r [] = ok r
add_lines r (h ∷ hs) = add_response_header r h >>= λ q. add_lines q hs

abbrev pub head_response : Bytes → List Bytes → Result ParseError (Option RawResponse)
head_response status hs = create_http_response status >>= λ r. add_lines (some r) hs

-- No line has a carriage return, and no header line is empty.
abbrev pub AreHeaderLines : List Bytes → Type 0
AreHeaderLines [] = Unit {0}
AreHeaderLines (h ∷ hs) = (Without is_carriage_return h × (is_empty h ≡ false)) × AreHeaderLines hs

abbrev pub scanned : Bytes → Result ParseError (Option RawResponse) → Scanned
scanned body (ok r) = done r body
scanned body (err e) = bad e

scan-line :
    (w l t : Bytes) (r : Option RawResponse)
    → Without is_carriage_return w
    → scan (record { line = l; returned = false; response = r }) (w ++ (b'\r' ∷ b'\n' ∷ t))
      ≡ follow
          (λ b. scan b t)
          (scan_line_feed (record { line = l ++ w; returned = true; response = r }) t)
unfolding scan scan_byte
scan-line [] l t r h =
    ap
      (λ x.
        follow (λ b. scan b t)
          (scan_line_feed (record { line = x; returned = true; response = r }) t))
      (sym (append-nil l))
scan-line (c ∷ w) l t r h =
    rw (scan_byte, h.0)
      (scan-line w (l ++ (c ∷ [])) t r h.1
        ∙ ap
            (λ x.
              follow (λ b. scan b t)
                (scan_line_feed (record { line = x; returned = true; response = r }) t))
            (append_assoc l (c ∷ []) w))

module _ (hs : List Bytes) (body : Bytes) where
  -- The scan from the start of a line on, once the status line was read.
  Reads : Type 0
  Reads =
      (r : RawResponse)
      → scan (record { line = []; returned = false; response = some r }) (header_text hs ++ body)
        ≡ scanned body (add_lines (some r) hs)

  after_header :
      (r : RawResponse) (o : Result HeaderError (List (Bytes × Bytes)))
      → Reads
      → follow (λ b. scan b (header_text hs ++ body)) (line_move (with_headers r o))
        ≡ scanned body (with_headers r o >>= λ q. add_lines q hs)
  unfolding Reads
  after_header r (ok m) ih = ih (record r { headers = m })
  after_header r (err e) ih = refl

  after_status :
      (o : Result ParseError RawResponse)
      → Reads
      → follow (λ b. scan b (header_text hs ++ body)) (line_move (o >>= λ r. ok (some r)))
        ≡ scanned body (o >>= λ r. add_lines (some r) hs)
  unfolding Reads
  after_status (ok r) ih = ih r
  after_status (err e) ih = refl

scan-header_text : (hs : List Bytes) (body : Bytes) → AreHeaderLines hs → Reads hs body
unfolding Reads scan scan_byte scan_line_feed add_response_header
scan-header_text [] body w r = refl
scan-header_text (h ∷ hs) body ((w, f), ws) r =
    ap (scan (record { line = []; returned = false; response = some r }))
      (append_assoc h (b'\r' ∷ b'\n' ∷ header_text hs) body)
    ∙ (scan-line h [] (header_text hs ++ body) (some r) w
        ∙ rw (scan_line_feed, f)
            (after_header hs body r (add_header_line r.headers h) (scan-header_text hs body ws)))

-- The scan of a head and a body yields the response of the head, and stops before the body; or it
-- refuses the first line that is bad.
pub scan-head_text :
    (status : Bytes) (hs : List Bytes) (body : Bytes)
    → Without is_carriage_return status
    → AreHeaderLines hs
    → scan (record { line = []; returned = false; response = none }) (head_text status hs ++ body)
      ≡ scanned body (head_response status hs)
unfolding scan_line_feed
scan-head_text status hs body w ws =
    ap (scan (record { line = []; returned = false; response = none }))
      (append_assoc status (b'\r' ∷ b'\n' ∷ header_text hs) body)
    ∙ (scan-line status [] (header_text hs ++ body) none w
        ∙ rw (scan_line_feed, and-false (is_empty status))
            (after_status hs body (create_http_response status) (scan-header_text hs body ws)))
  where
    and-false : (b : Bool) → (b && false) ≡ false
    and-false true = refl
    and-false false = refl
