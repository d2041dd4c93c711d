-- ===== src/Http/Curl/Parser/Lines.antt =====
-- The end of a line in `ResponseBufferParser::Parse`, and in the scan.
use mathlib.Core.List.{append-nil}
use azure_sdk_for_cpp.Base.{
  ℕ, suc, ◌-◌, ◌≡◌, refl, ◌∙◌, sym, ap, ◌≤◌, inl, inr, Bool, true, false, ◌&&◌, ◌||◌, [], ◌∷◌, ◌++◌,
  Option, none, some, ◌==◌, ltb, leb, ltb→le, if◌then◌else◌, length, take, Bytes, is_empty, ok, err,
  arith, Bool-cases,
}
use azure_sdk_for_cpp.Http.Response.{RawResponse}
use azure_sdk_for_cpp.Http.Url.{pop_back}
use azure_sdk_for_cpp.Http.Curl.Parser.{
  ResponseBufferParser, completed, Round, go, stop, take_line, is_headers, end_line, after_line,
}
use azure_sdk_for_cpp.Http.Curl.Parser.Scan.{
  Scan, done, stray, off, line_result, has_response, scan_line_feed,
}
use azure_sdk_for_cpp.Http.Curl.Parser.Agreement.{
  state_of, strip, Agree, take-pop_back, take_line-Stepped, AgreeRound, next-AgreeRound,
}

empty-append : (x y : Bytes) → is_empty x ≡ true → x ++ y ≡ y
empty-append [] y e = refl
empty-append (c ∷ x) y e = absurd cc

-- The line that the parser takes is the one that the scan has.
text-line :
    (seg rest : Bytes) (start index : ℕ) (p : ResponseBufferParser) (a : Scan)
    → Agree seg start index p a
    → a.returned ≡ true
    → take (index - 1 - start) (seg ++ rest) ≡ pop_back seg
text-line seg rest start index p a g r =
    let e : index - 1 - start ≡ length seg - 1 = let s = g.size in omega arith in
    rw e (take-pop_back seg rest)

whole_line :
    (seg : Bytes) (start index : ℕ) (p : ResponseBufferParser) (a : Scan)
    → Agree seg start index p a
    → a.returned ≡ true
    → p.internal_buffer ++ pop_back seg ≡ a.line
whole_line seg start index p a g r = sym (ap (λ b. p.internal_buffer ++ strip b seg) r) ∙ g.line

nonempty-append : (x y : Bytes) → is_empty x ≡ false → is_empty (x ++ y) ≡ false
nonempty-append [] y e = absurd cc
nonempty-append (c ∷ x) y e = refl

short-pop_back : (seg : Bytes) → length seg ≤ 1 → pop_back seg ≡ []
unfolding pop_back
short-pop_back [] le = refl
short-pop_back (x ∷ []) le = refl
short-pop_back (x ∷ y ∷ seg) le = absurd (omega arith)

is_empty-pop_back : (seg : Bytes) → is_empty (pop_back seg) ≡ leb (length seg) 1
unfolding pop_back
is_empty-pop_back [] = refl
is_empty-pop_back (x ∷ []) = refl
is_empty-pop_back (x ∷ y ∷ seg) = ground arith

-- The internal buffer has the start of the line.
appended :
    (seg : Bytes) (start index : ℕ) (p : ResponseBufferParser) (a : Scan)
    → Agree seg start index p a
    → a.returned ≡ true
    → (if ltb 1 index then p.internal_buffer ++ pop_back seg else p.internal_buffer) ≡ a.line
appended seg start index p a g r = elim (Bool-cases (ltb 1 index)) [
  | inl e ↦ rw e (whole_line seg start index p a g r)
  | inr e ↦
      let s = g.size in
      let short : length seg ≤ 1 = let l = ltb→le 1 index e in omega arith in
      rw e (
        sym (append-nil p.internal_buffer)
        ∙ (ap (λ x. p.internal_buffer ++ x) (sym (short-pop_back seg short))
            ∙ whole_line seg start index p a g r))
]

is_headers-state_of : (r : Option RawResponse) → is_headers (state_of r) ≡ has_response r
is_headers-state_of none = refl
is_headers-state_of (some r) = refl

-- The test for the end of the head.
at_end :
    (seg : Bytes) (start index : ℕ) (p : ResponseBufferParser) (a : Scan)
    → Agree seg start index p a
    → a.returned ≡ true
    → p.internal_buffer ≡ []
    → (is_headers p.state && (index == 0 || index == suc start))
      ≡ (is_empty a.line && has_response a.response)
at_end seg start index p a g r e =
    let line : a.line ≡ pop_back seg =
      sym (whole_line seg start index p a g r) ∙ ap (λ x. x ++ pop_back seg) e in
    let here : (index == 0 || index == suc start) ≡ leb (length seg) 1 =
      let s = g.size in let b = g.behind r in ground arith in
    rw (g.state, is_headers-state_of a.response, line, is_empty-pop_back seg, here)
      (and_comm (has_response a.response) (leb (length seg) 1))
  where
    and_comm : (x y : Bool) → (x && y) ≡ (y && x)
    and_comm true true = refl
    and_comm true false = refl
    and_comm false true = refl
    and_comm false false = refl

empty-nil : (x : Bytes) → is_empty x ≡ true → x ≡ []
empty-nil [] e = refl
empty-nil (c ∷ x) e = absurd cc

finished :
    (rest : Bytes) (index : ℕ) (p : ResponseBufferParser) (a : Scan)
    → p.response ≡ a.response
    → AgreeRound rest index
        (after_line rest index (completed (record p { parse_completed = true })))
        (off (done a.response rest))
unfolding AgreeRound after_line
finished rest index p a e = ((refl, e), (refl, refl))

pub stray-AgreeRound : (rest : Bytes) (index : ℕ) (r : Round) → AgreeRound rest index r (off stray)
unfolding AgreeRound
stray-AgreeRound rest index (go from_start start p) = tt
stray-AgreeRound rest index (stop (ok (q, n))) = tt
stray-AgreeRound rest index (stop (err e)) = tt

pub end_line-Agree :
    (seg rest : Bytes) (start index c : ℕ) (p : ResponseBufferParser) (a : Scan)
    → Agree seg start index p a
    → a.returned ≡ true
    → AgreeRound rest index
        (after_line rest index (end_line (seg ++ (c ∷ rest)) start index p))
        (scan_line_feed a rest)
unfolding end_line scan_line_feed
end_line-Agree seg rest start index c p a g r =
    let t = text-line seg (c ∷ rest) start index p a g r in
    let step =
      next-AgreeRound rest index (take_line p a.line) (line_result a.response a.line)
        (take_line-Stepped p a.line a.response g.response g.state g.incomplete) in
    elim (Bool-cases (is_empty p.internal_buffer)) [
      | inr full ↦
          let f : is_empty a.line ≡ false =
            ap is_empty (sym (whole_line seg start index p a g r))
            ∙ nonempty-append p.internal_buffer (pop_back seg) full in
          rw (end_line, scan_line_feed, full, t, appended seg start index p a g r, f) step
      | inl none_kept ↦
          let nil = empty-nil p.internal_buffer none_kept in
          let line : pop_back seg ≡ a.line =
            ap (λ x. x ++ pop_back seg) (sym nil) ∙ whole_line seg start index p a g r in
          elim (Bool-cases (is_empty a.line && has_response a.response)) [
            | inl last ↦
                rw
                  (
                    end_line,
                    scan_line_feed,
                    none_kept,
                    at_end seg start index p a g r nil ∙ last,
                    last,
                  )
                  (finished rest index p a g.response)
            | inr other ↦
                rw
                  (
                    end_line,
                    scan_line_feed,
                    none_kept,
                    at_end seg start index p a g r nil ∙ other,
                    other,
                    t,
                    line,
                  )
                  step
          ]
    ]
