-- ===== src/Http/Curl/Parser/Simulation.antt =====
-- `ResponseBufferParser::Parse` on a buffer does what the scan does byte by byte.
use mathlib.Core.List.{append-nil}
use azure_sdk_for_cpp.Base.{
  ℕ, suc, ◌+◌, ◌-◌, ◌≡◌, refl, ◌∙◌, sym, ap, subst, inl, inr, Bool, true, false, [], ◌∷◌, ◌++◌, ltb,
  ltb→le, if◌then◌else◌, length, take, drop, Bytes, Result, ok, err, arith, Bool-cases,
}
use azure_sdk_for_cpp.Http.Url.{pop_back}
use azure_sdk_for_cpp.Base.{drop-drop, length-nil}
use azure_sdk_for_cpp.Http.Curl.Parser.{
  ParseError, ResponseBufferParser, Round, go, stop, keep_rest, parse_byte, parse_loop,
  parse_buffer, continue,
}
use azure_sdk_for_cpp.Http.Curl.Parser.Scan.{
  Scan, Scanned, more, done, bad, stray, Move, on, off, scan_byte, scan, follow,
}
use azure_sdk_for_cpp.Http.Curl.Parser.Agreement.{
  strip, Agree, AgreeRound, take-length, take-pop_back,
}
use azure_sdk_for_cpp.Http.Curl.Parser.ByteSteps.{parse_byte-Agree}

-- The result for a buffer, and that of the scan of its bytes.
unfoldable pub AgreeResult :
    Bytes → ℕ → Result ParseError (ResponseBufferParser × ℕ) → Scanned → Type 0
AgreeResult buffer size (ok (q, n)) (more b) = Agree [] 0 0 q b × (n ≡ size)
AgreeResult buffer size (ok (q, n)) (done r after) =
    ((q.parse_completed ≡ true) × (q.response ≡ r))
    × ((drop n buffer ≡ after) × (n + length after ≡ size))
AgreeResult buffer size (err e) (bad f) = e ≡ f
AgreeResult buffer size _ stray = Unit {0}
AgreeResult buffer size _ _ = ⊥

stray-AgreeResult :
    (buffer : Bytes) (size : ℕ) (o : Result ParseError (ResponseBufferParser × ℕ))
    → AgreeResult buffer size o stray
unfolding AgreeResult
stray-AgreeResult buffer size (ok (q, n)) = tt
stray-AgreeResult buffer size (err e) = tt

strip-nil : (b : Bool) → strip b [] ≡ []
unfolding pop_back
strip-nil true = refl
strip-nil false = refl

taken :
    (delimiter : Bool) (seg : Bytes) (start index : ℕ)
    → start + length seg ≡ index
    → take (index - (if delimiter then 1 else 0) - start) seg ≡ strip delimiter seg
taken true seg start index e =
    let f : index - 1 - start ≡ length seg - 1 = omega arith in
    rw f (ap (take (length seg - 1)) (sym (append-nil seg)) ∙ take-pop_back seg [])
taken false seg start index e =
    let f : index - 0 - start ≡ length seg = omega arith in
    rw f (ap (take (length seg)) (sym (append-nil seg)) ∙ take-length seg [])

-- What is kept of a buffer is the line so far.
keep_rest-Agree :
    (seg : Bytes) (start index : ℕ) (p : ResponseBufferParser) (a : Scan)
    → Agree seg start index p a
    → Agree [] 0 0 (keep_rest seg start index p) a
unfolding keep_rest
keep_rest-Agree seg start index p a g = elim (Bool-cases (ltb start index)) [
  | inl e ↦
      rw (keep_rest, e)
        (record {
          response = g.response;
          state = g.state;
          delimiter = g.delimiter;
          incomplete = g.incomplete;
          line =
              ap
                (λ x.
                  (p.internal_buffer
                    ++ take (index - (if p.delimiter_start_in_prev_position then 1 else 0) - start)
                        seg)
                  ++ x)
                (strip-nil a.returned)
              ∙ (append-nil (
                    p.internal_buffer
                    ++ take (index - (if p.delimiter_start_in_prev_position then 1 else 0) - start)
                        seg)
                  ∙ (ap (λ x. p.internal_buffer ++ x)
                        (taken p.delimiter_start_in_prev_position seg start index g.size)
                      ∙ (ap (λ b. p.internal_buffer ++ strip b seg) g.delimiter ∙ g.line)));
          size = omega arith;
          behind = λ k. inl refl;
        })
  | inr e ↦
      let none : seg ≡ [] =
        let s = g.size in let l = ltb→le start index e in length-nil seg (omega arith) in
      rw (keep_rest, e)
        (record {
          response = g.response;
          state = g.state;
          delimiter = g.delimiter;
          incomplete = g.incomplete;
          line = ap (λ x. p.internal_buffer ++ strip a.returned x) (sym none) ∙ g.line;
          size = omega arith;
          behind = λ k. inl refl;
        })
]

incomplete_parse :
    (p : ResponseBufferParser) (buffer : Bytes)
    → p.parse_completed ≡ false
    → parse_buffer p buffer ≡ parse_loop buffer 0 0 p buffer
unfolding parse_buffer
incomplete_parse p buffer e =
    if_false p.parse_completed (ok (p, 0)) (parse_loop buffer 0 0 p buffer) e
  where
    if_false : {A : Type 0} (b : Bool) (x y : A) → b ≡ false → (if b then x else y) ≡ y
    if_false true x y h = absurd cc
    if_false false x y h = refl

module _ (buffer rest : Bytes) (index : ℕ) (after : drop (suc index) buffer ≡ rest) where
  -- The rest of the loop, after the round.
  follow-Agree :
      (r : Round) (m : Move)
      → AgreeRound rest index r m
      → ((seg : Bytes) (start : ℕ) (p : ResponseBufferParser) (b : Scan)
          → Agree seg start (suc index) p b
          → AgreeResult buffer
              (suc index + length rest)
              (parse_loop (seg ++ rest) start (suc index) p rest)
              (scan b rest))
      → AgreeResult buffer
          (suc index + length rest)
          (continue (λ from_start' start' p'. parse_loop from_start' start' (suc index) p' rest) r)
          (follow (λ b. scan b rest) m)
  unfolding AgreeRound AgreeResult
  follow-Agree (go from_start start p) (on b) (seg, (e, g)) h = rw e (h seg start p b g)
  follow-Agree (stop (ok (q, n))) (off (done r t)) ((c, e), (f, g)) h =
      ((c, e), (rw (f, g) after, rw (f, g) refl))
  follow-Agree (stop (err e)) (off (bad f)) h k = h
  follow-Agree r (off stray) h k =
      stray-AgreeResult buffer (suc index + length rest)
        (continue (λ from_start' start' p'. parse_loop from_start' start' (suc index) p' rest) r)
  follow-Agree (go from_start start p) (off (more b)) h k = absurd h
  follow-Agree (go from_start start p) (off (done r t)) h k = absurd h
  follow-Agree (go from_start start p) (off (bad e)) h k = absurd h
  follow-Agree (stop (ok (q, n))) (on b) h k = absurd h
  follow-Agree (stop (ok (q, n))) (off (more b)) h k = absurd h
  follow-Agree (stop (ok (q, n))) (off (bad e)) h k = absurd h
  follow-Agree (stop (err e)) (on b) h k = absurd h
  follow-Agree (stop (err e)) (off (more b)) h k = absurd h
  follow-Agree (stop (err e)) (off (done r t)) h k = absurd h

parse_loop-Agree :
    (buffer rest seg : Bytes) (start index : ℕ) (p : ResponseBufferParser) (a : Scan)
    → drop index buffer ≡ rest
    → Agree seg start index p a
    → AgreeResult buffer
        (index + length rest)
        (parse_loop (seg ++ rest) start index p rest)
        (scan a rest)
unfolding AgreeResult parse_loop scan
parse_loop-Agree buffer [] seg start index p a d g =
    (rw (append-nil seg) (keep_rest-Agree seg start index p a g), omega arith)
parse_loop-Agree buffer (c ∷ rest) seg start index p a d g =
    let after : drop (suc index) buffer ≡ rest =
      let e : suc index ≡ index + 1 = omega arith in
      rw e (sym (drop-drop index 1 buffer) ∙ ap (drop 1) d) in
    let e : index + suc (length rest) ≡ suc index + length rest = omega arith in
    rw e (
      follow-Agree buffer rest index after (parse_byte (seg ++ (c ∷ rest)) start index p c rest)
        (scan_byte a c rest) (parse_byte-Agree seg rest start index c p a g)
        (λ seg' start' p' b h. parse_loop-Agree buffer rest seg' start' (suc index) p' b after h))

-- Between buffers, what the parser does with a buffer is what the scan does with its bytes: it is
-- in step with the scan, or has completed the response at the same byte, or refuses the same line,
-- unless a carriage return stands alone.
pub parse_buffer-AgreeResult :
    (p : ResponseBufferParser) (a : Scan) (buffer : Bytes)
    → Agree [] 0 0 p a
    → AgreeResult buffer (length buffer) (parse_buffer p buffer) (scan a buffer)
unfolding parse_buffer
parse_buffer-AgreeResult p a buffer g =
    let e : 0 + length buffer ≡ length buffer = omega arith in
    subst (λ x. AgreeResult buffer (length buffer) x (scan a buffer))
      (sym (incomplete_parse p buffer g.incomplete))
      (subst (λ n. AgreeResult buffer n (parse_loop buffer 0 0 p buffer) (scan a buffer)) e
        (parse_loop-Agree buffer buffer [] 0 0 p a refl g))
