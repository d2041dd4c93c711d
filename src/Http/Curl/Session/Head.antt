-- ===== src/Http/Curl/Session/Head.antt =====
-- Reading the head of a response, whatever the pieces in which the socket yields it.
use azure_sdk_for_cpp.Base.{
  ℕ, zero, suc, ◌≡◌, refl, ◌∙◌, sym, ap, subst, ◌≤◌, ◌<◌, ◌⊎◌, inl, inr, false, List, [], ◌++◌,
  Option, none, some, ltb_irrefl, if-true, if-false, Result-cases, ◌==◌, length, length-append,
  drop, Bytes, Result, OnOk, Returns, ok, err, ◌>>=◌, arith, Bool-cases, Without, codes,
}
use azure_sdk_for_cpp.Dict.{find}
use azure_sdk_for_cpp.Http.Response.{RawResponse}
use azure_sdk_for_cpp.Http.Streams.{IsStream}
use azure_sdk_for_cpp.Http.Curl.Parser.{
  ParseError, ResponseBufferParser, new_parser, parse_buffer, is_carriage_return,
}
use azure_sdk_for_cpp.Http.Curl.Parser.Scan.{
  Scan, Scanned, more, done, bad, stray, then_scan, scan, scan-append,
}
use azure_sdk_for_cpp.Http.Curl.Parser.Agreement.{Agree, take-length}
use azure_sdk_for_cpp.Http.Curl.Parser.Simulation.{AgreeResult, parse_buffer-AgreeResult}
use azure_sdk_for_cpp.Http.Curl.Parser.Head.{
  head_text, head_response, AreHeaderLines, scanned, scan-head_text,
}
use azure_sdk_for_cpp.Http.Curl.Session.{
  SessionError, parse_failure, connection_closed, CurlSession, read_length, finish_head, read_head,
  set_body_length, reader_size, fill, pull, next_buffer, lift_parse, body_start, head_round,
  follow_round, head_loop,
}
use azure_sdk_for_cpp.Http.Curl.Session.Pending.{
  pending, pending-body_start, Fits, Fits-body_start, SameSession,
}

module _ {W : Type 0} (read_from_socket : W → ℕ → Result SessionError (W × Bytes))
    (content : W → Bytes) where
  -- What the loop over the head yields, by the scan of all that the socket has.
  abbrev pub HeadRead :
      CurlSession
      → Scanned
      → Option (Result SessionError ((Option RawResponse × (CurlSession × ℕ)) × W))
      → Type 0
  HeadRead s stray o = Unit {0}
  HeadRead s (more a) none = ⊥
  HeadRead s (more a) (some (err e)) = Unit {0}
  HeadRead s (more a) (some (ok r)) = ⊥
  HeadRead s (bad e) none = ⊥
  HeadRead s (bad e) (some (err f)) = Unit {0}
  HeadRead s (bad e) (some (ok r)) = ⊥
  HeadRead s (done response after) none = ⊥
  HeadRead s (done response after) (some (err e)) = Unit {0}
  HeadRead s (done response after) (some (ok ((r, (t, size)), w))) =
      (r ≡ response)
      × ((pending (record t { inner_buffer_size = size }) ++ content w ≡ after)
          × (SameSession s t × Fits (record t { inner_buffer_size = size })))

  err-HeadRead : (s : CurlSession) (o : Scanned) (e : SessionError) → HeadRead s o (some (err e))
  err-HeadRead s stray e = tt
  err-HeadRead s (more a) e = tt
  err-HeadRead s (bad f) e = tt
  err-HeadRead s (done r x) e = tt

  -- After the parser has read a buffer.
  after_buffer :
      (again : ResponseBufferParser
        → CurlSession
        → W
        → Option (Result SessionError ((Option RawResponse × (CurlSession × ℕ)) × W)))
      (s t : CurlSession) (b buffer : Bytes) (w : W)
      (r : Result ParseError (ResponseBufferParser × ℕ)) (o : Scanned)
      → t.read_buffer ≡ fill b buffer
      → t.inner_buffer_size ≡ length b
      → t.body_start_in_buffer ≡ none
      → SameSession s t
      → AgreeResult b (length b) r o
      → ((q : ResponseBufferParser) (a : Scan) (u : CurlSession)
          → Agree [] 0 0 q a
          → u.body_start_in_buffer ≡ none
          → SameSession s u
          → HeadRead s (scan a (content w)) (again q u w))
      → HeadRead s (then_scan o (content w)) (
          follow_round read_from_socket again (
            lift_parse r >>= λ (q, n). ok (
              q,
              (
                (
                  record t {
                    body_start_in_buffer = body_start n (length b) t.body_start_in_buffer;
                  },
                  length b,
                ),
                w,
              ),
            )))
  unfolding follow_round AgreeResult
  after_buffer again s t b buffer w (err e) o f size start same agree k =
      err-HeadRead s (then_scan o (content w)) (parse_failure e)
  after_buffer again s t b buffer w (ok (q, n)) stray f size start same agree k = tt
  after_buffer again s t b buffer w (ok (q, n)) (bad g) f size start same agree k = absurd agree
  after_buffer again s t b buffer w (ok (q, n)) (more a) f size start same (agree, e) k =
      let kept : body_start n (length b) t.body_start_in_buffer ≡ none =
        rw (e, ltb_irrefl (length b)) start in
      subst (HeadRead s (scan a (content w)))
        (sym (if-false q.parse_completed _ _ agree.incomplete))
        (k q a (record t { body_start_in_buffer = body_start n (length b) t.body_start_in_buffer })
          agree kept same)
  after_buffer again s t b buffer w (ok (q, n)) (done r x) f size start same ((c, e), (g, h)) k =
      let left : pending (record t {
        inner_buffer_size = length b;
        body_start_in_buffer = body_start n (length b) t.body_start_in_buffer;
      })
          ≡ x =
        ap
          (λ i. pending (record t {
            inner_buffer_size = length b;
            body_start_in_buffer = body_start n (length b) i;
          }))
          start
        ∙ (pending-body_start t b buffer n (omega arith) f ∙ g) in
      let fits : Fits (record t {
        inner_buffer_size = length b;
        body_start_in_buffer = body_start n (length b) t.body_start_in_buffer;
      }) =
        subst
          (λ i. Fits (record t {
            inner_buffer_size = length b;
            body_start_in_buffer = body_start n (length b) i;
          }))
          (sym start) (Fits-body_start t b buffer n f) in
      subst (HeadRead s (done r (x ++ content w))) (sym (if-true q.parse_completed _ _ c))
        (e, (ap (λ y. y ++ content w) left, (same, fits)))

  -- What the socket promises of a read of a whole buffer.
  abbrev Progress : W → W × Bytes → Type 0
  Progress w (w', b) =
      (length b ≤ reader_size)
      × ((content w ≡ b ++ content w') × ((length b ≡ 0) → (reader_size ≡ 0) ⊎ (content w ≡ [])))

  same-HeadRead :
      (s u : CurlSession) (o : Scanned)
      (r : Option (Result SessionError ((Option RawResponse × (CurlSession × ℕ)) × W)))
      → SameSession s u
      → HeadRead u o r
      → HeadRead s o r
  same-HeadRead s u stray r e h = tt
  same-HeadRead s u (more a) none e h = h
  same-HeadRead s u (more a) (some (err f)) e h = tt
  same-HeadRead s u (more a) (some (ok x)) e h = h
  same-HeadRead s u (bad g) none e h = h
  same-HeadRead s u (bad g) (some (err f)) e h = tt
  same-HeadRead s u (bad g) (some (ok x)) e h = h
  same-HeadRead s u (done y x) none e h = h
  same-HeadRead s u (done y x) (some (err f)) e h = tt
  same-HeadRead s u (done y x) (some (ok ((r, (t, size)), w))) (a, (b, (c, d)))
        (i, (j, ((k, (l, (m, n))), fits))) =
      (i, (j, ((k ∙ a, (l ∙ b, (m ∙ c, n ∙ d))), fits)))

  head_loop-HeadRead :
      (stream : IsStream read_from_socket content) (fuel : ℕ) (s : CurlSession) (w : W)
      (p : ResponseBufferParser) (a : Scan)
      → s.body_start_in_buffer ≡ none
      → Agree [] 0 0 p a
      → length (content w) < fuel
      → HeadRead s (scan a (content w)) (head_loop read_from_socket fuel false p s w)
  unfolding head_loop IsStream head_round next_buffer pull follow_round
  head_loop-HeadRead stream zero s w p a start g lt = absurd (omega arith)
  head_loop-HeadRead stream (suc fuel) s w p a start g lt =
      elim (Result-cases (read_from_socket w reader_size)) [
        | inr (e, eq) ↦
            rw (head_loop, head_round, next_buffer, pull, eq)
              (err-HeadRead s (scan a (content w)) e)
        | inl ((w', b), eq) ↦ elim (Bool-cases (length b == 0)) [
          | inl z ↦
              rw (head_loop, head_round, next_buffer, pull, eq, z)
                (err-HeadRead s (scan a (content w)) connection_closed)
          | inr z ↦
              let (le, (c, empty)) = subst (OnOk (Progress w)) eq (stream w reader_size) in
              let t : CurlSession = record s {
                read_buffer = fill b s.read_buffer;
                inner_buffer_size = length b;
              } in
              let step =
                after_buffer (head_loop read_from_socket fuel false) s t b s.read_buffer w'
                  (parse_buffer p b) (scan a b) refl refl start (refl, (refl, (refl, refl)))
                  (parse_buffer-AgreeResult p a b g)
                  (λ q d u agree free same.
                    same-HeadRead s u (scan d (content w'))
                      (head_loop read_from_socket fuel false q u w') same
                      (head_loop-HeadRead stream fuel u w' q d free agree (
                        let l = length-append b (content w') in
                        let m : length (content w) ≡ length (b ++ content w') = ap length c in
                        ground arith))) in
              rw
                (
                  c,
                  scan-append a b (content w'),
                  head_loop,
                  head_round,
                  next_buffer,
                  pull,
                  eq,
                  z,
                  take-length b (drop (length b) s.read_buffer),
                )
                step
        ]
      ]

  new_parser-Agree :
      Agree [] 0 0 new_parser (record { line = []; returned = false; response = none })
  new_parser-Agree = record {
    response = refl;
    state = refl;
    delimiter = refl;
    incomplete = refl;
    line = refl;
    size = omega arith;
    behind = λ k. inl refl;
  }

  -- Whatever the pieces in which the socket yields a response, with fuel for its bytes the loop over
  -- its head ends. Unless the socket fails, it yields the response that the lines of the head make up,
  -- with the body, and no more, left in the internal buffer and on the socket; and it throws if a line
  -- is malformed.
  pub head_loop-head_text :
      (fuel : ℕ) (s : CurlSession) (w : W) (status : Bytes) (hs : List Bytes) (body : Bytes)
      → IsStream read_from_socket content
      → s.body_start_in_buffer ≡ none
      → content w ≡ head_text status hs ++ body
      → Without is_carriage_return status
      → AreHeaderLines hs
      → length (content w) < fuel
      → HeadRead s
          (scanned body (head_response status hs))
          (head_loop read_from_socket fuel false new_parser s w)
  head_loop-head_text fuel s w status hs body stream start e ws wh lt =
      subst (λ o. HeadRead s o (head_loop read_from_socket fuel false new_parser s w))
        (ap (scan (record { line = []; returned = false; response = none })) e
          ∙ scan-head_text status hs body ws wh)
        (head_loop-HeadRead stream fuel s w new_parser
          (record { line = []; returned = false; response = none }) start new_parser-Agree lt)

  -- The response, the length of its body, and the body on the way.
  abbrev pub Framed : CurlSession → RawResponse → ℕ → Bytes → CurlSession × W → Type 0
  Framed s r n body (t, w) =
      ((t.response ≡ some r) × (t.content_length ≡ some n))
      × ((pending t ++ content w ≡ body) × (SameSession s t × Fits t))

  finish_head-Framed :
      (fuel : ℕ) (s : CurlSession) (r : RawResponse) (n : ℕ) (value body : Bytes)
      (o : Option (Result SessionError ((Option RawResponse × (CurlSession × ℕ)) × W)))
      → HeadRead s (done (some r) body) o
      → s.is_head_request ≡ false
      → (r.status_code == 204) ≡ false
      → find (codes "content-length") r.headers ≡ some value
      → read_length value ≡ ok n
      → Returns (Framed s r n body) (finish_head read_from_socket fuel o)
  unfolding finish_head set_body_length
  finish_head-Framed fuel s r n value body none h hd st f l = h
  finish_head-Framed fuel s r n value body (some (err e)) h hd st f l = tt
  finish_head-Framed fuel s r n value body (some (ok ((none, (t, size)), w))) (e, h) hd st f l =
      absurd cc
  finish_head-Framed fuel s r n value body (some (ok ((some q, (t, size)), w)))
        (e, (g, ((i, (j, (k, m))), fits))) hd st f l =
      let same : q ≡ r = cc in
      rw (same, set_body_length, j ∙ hd, st, f, l)
        ((ap some same, refl), (g, ((i, (j, (k, m))), fits)))

  -- A response with a length of its content, whatever the pieces in which the socket yields it, is read
  -- up to its body, unless the socket fails: the response is that of the lines of the head, the
  -- length is that of the header, and the body is left in the internal buffer and on the socket.
  pub read_head-Framed :
      (fuel : ℕ) (s : CurlSession) (w : W) (status : Bytes) (hs : List Bytes) (body : Bytes)
      (r : RawResponse) (value : Bytes) (n : ℕ)
      → IsStream read_from_socket content
      → s.body_start_in_buffer ≡ none
      → s.is_head_request ≡ false
      → content w ≡ head_text status hs ++ body
      → Without is_carriage_return status
      → AreHeaderLines hs
      → length (content w) < fuel
      → head_response status hs ≡ ok (some r)
      → (r.status_code == 204) ≡ false
      → find (codes "content-length") r.headers ≡ some value
      → read_length value ≡ ok n
      → Returns (Framed s r n body) (read_head read_from_socket fuel false s w)
  unfolding read_head
  read_head-Framed fuel s w status hs body r value n stream start hd e ws wh lt response st f l =
      finish_head-Framed fuel s r n value body
        (head_loop read_from_socket fuel false new_parser s w)
        (subst
          (λ o. HeadRead s (scanned body o) (head_loop read_from_socket fuel false new_parser s w))
          response (head_loop-head_text fuel s w status hs body stream start e ws wh lt))
        hd st f l
