-- ===== src/Http/Curl/Parser/ByteSteps.antt =====
-- A byte in the parser of curl.cpp and in the scan of a response.
use mathlib.Core.List.{append_assoc}
use azure_sdk_for_cpp.Base.{
  ℕ, ◌≡◌, refl, ◌∙◌, sym, ap, subst, inl, inr, Bool, true, false, not, ◌&&◌, [], ◌∷◌, ◌++◌, ◌==◌,
  if◌then◌else◌, length-append, Bytes, is_empty, arith, Bool-cases,
}
use azure_sdk_for_cpp.Http.Url.Queries.{pop_back-concat}
use azure_sdk_for_cpp.Http.Curl.Parser.{
  ResponseBufferParser, Round, go, end_line, pass_byte, after_line, parse_byte,
}
use azure_sdk_for_cpp.Http.Curl.Parser.Scan.{Scan, stray, Move, on, off, scan_line_feed, scan_byte}
use azure_sdk_for_cpp.Http.Curl.Parser.Lines.{stray-AgreeRound, end_line-Agree}
use azure_sdk_for_cpp.Http.Curl.Parser.Agreement.{strip, Agree, AgreeRound}

third_and : {A : Type 0} (b d e : Bool) (x y : A) → e ≡ false → (if b && d && e then x else y) ≡ y
third_and true true e x y h = rw h refl
third_and true false e x y h = refl
third_and false d e x y h = refl

module _ {A : Type 0} (b d e : Bool) (x y z : A) where
  first_branch : b ≡ true → (if b then x else if d && e then y else z) ≡ x
  first_branch h = rw h refl

  second_branch : b ≡ false → d ≡ true → e ≡ true → (if b then x else if d && e then y else z) ≡ y
  second_branch h k l = rw (h, k, l) refl

  third_branch : b ≡ false → e ≡ false → (if b then x else if d && e then y else z) ≡ z
  third_branch h k = rw (h, k) (rw (and-false d) refl)
    where
      and-false : (d : Bool) → (d && false) ≡ false
      and-false true = refl
      and-false false = refl

module _ {A : Type 0} (b r d : Bool) (w x y z v : A) where
  scan_first :
      b ≡ true
      → r ≡ false
      → (if b then (if r then w else x) else if not r then y else if d then z else v) ≡ x
  scan_first h k = rw (h, k) refl

  scan_stray_return :
      b ≡ true
      → r ≡ true
      → (if b then (if r then w else x) else if not r then y else if d then z else v) ≡ w
  scan_stray_return h k = rw (h, k) refl

  scan_plain :
      b ≡ false
      → r ≡ false
      → (if b then (if r then w else x) else if not r then y else if d then z else v) ≡ y
  scan_plain h k = rw (h, k) refl

  scan_line_end :
      b ≡ false
      → r ≡ true
      → d ≡ true
      → (if b then (if r then w else x) else if not r then y else if d then z else v) ≡ z
  scan_line_end h k l = rw (h, k, l) refl

  scan_stray :
      b ≡ false
      → r ≡ true
      → d ≡ false
      → (if b then (if r then w else x) else if not r then y else if d then z else v) ≡ v
  scan_stray h k l = rw (h, k, l) refl

-- A carriage return, after none.
return-AgreeRound :
    (seg rest : Bytes) (start index : ℕ) (p : ResponseBufferParser) (a : Scan)
    → Agree seg start index p a
    → a.returned ≡ false
    → AgreeRound rest index
        (go (seg ++ (b'\r' ∷ rest)) start (record p { delimiter_start_in_prev_position = true }))
        (on (record a { returned = true }))
unfolding AgreeRound
return-AgreeRound seg rest start index p a g r = (
  seg ++ (b'\r' ∷ []),
  (
    sym (append_assoc seg (b'\r' ∷ []) rest),
    record {
      response = g.response;
      state = g.state;
      delimiter = refl;
      incomplete = g.incomplete;
      line =
          ap (λ x. p.internal_buffer ++ x) (pop_back-concat seg b'\r')
          ∙ (sym (ap (λ b. p.internal_buffer ++ strip b seg) r) ∙ g.line);
      size = let s = g.size in omega (arith, length-append seg (b'\r' ∷ []));
      behind = λ k. inr (omega (arith, length-append seg (b'\r' ∷ [])));
    },
  ),
)

-- Any byte but a carriage return, after none.
pass-AgreeRound :
    (seg rest : Bytes) (start index c : ℕ) (p : ResponseBufferParser) (a : Scan)
    → Agree seg start index p a
    → a.returned ≡ false
    → AgreeRound rest index
        (go (seg ++ (c ∷ rest)) start (pass_byte index p))
        (on (record a { line = a.line ++ c ∷ [] }))
unfolding AgreeRound pass_byte
pass-AgreeRound seg rest start index c p a g r =
    let kept : (if index == 0
            && not (is_empty p.internal_buffer)
            && p.delimiter_start_in_prev_position
          then p.internal_buffer ++ b'\r' ∷ []
          else p.internal_buffer)
        ≡ p.internal_buffer =
      third_and (index == 0) (not (is_empty p.internal_buffer)) p.delimiter_start_in_prev_position
        (p.internal_buffer ++ b'\r' ∷ []) p.internal_buffer (g.delimiter ∙ r) in
    (
      seg ++ (c ∷ []),
      (
        sym (append_assoc seg (c ∷ []) rest),
        record {
          response = g.response;
          state = g.state;
          delimiter = sym r;
          incomplete = g.incomplete;
          line =
              ap
                (λ b.
                  (if index == 0
                      && not (is_empty p.internal_buffer)
                      && p.delimiter_start_in_prev_position
                    then p.internal_buffer ++ b'\r' ∷ []
                    else p.internal_buffer)
                  ++ strip b (seg ++ (c ∷ [])))
                r
              ∙ (ap (λ x. x ++ (seg ++ (c ∷ []))) kept
                  ∙ (sym (append_assoc p.internal_buffer seg (c ∷ []))
                      ∙ ap (λ x. x ++ (c ∷ []))
                          (sym (ap (λ b. p.internal_buffer ++ strip b seg) r) ∙ g.line)));
          size = let s = g.size in omega (arith, length-append seg (c ∷ []));
          behind = λ k. inr (omega (arith, length-append seg (c ∷ [])));
        },
      ),
    )

pub parse_byte-Agree :
    (seg rest : Bytes) (start index c : ℕ) (p : ResponseBufferParser) (a : Scan)
    → Agree seg start index p a
    → AgreeRound rest index
        (parse_byte (seg ++ (c ∷ rest)) start index p c rest)
        (scan_byte a c rest)
unfolding parse_byte scan_byte
parse_byte-Agree seg rest start index c p a g =
    let parsed : Round = parse_byte (seg ++ (c ∷ rest)) start index p c rest in
    let b = c == b'\r' in
    let d = c == b'\n' in
    let to_return : Move = on (record a { returned = true }) in
    let to_line : Move = on (record a { line = a.line ++ c ∷ [] }) in
    let returned_p : Round =
      go (seg ++ (c ∷ rest)) start (record p { delimiter_start_in_prev_position = true }) in
    let passed : Round = go (seg ++ (c ∷ rest)) start (pass_byte index p) in
    elim (Bool-cases a.returned) [
      | inl r ↦ elim (Bool-cases (c == b'\r')) [
        | inl e ↦
            subst (AgreeRound rest index parsed)
              (sym (
                scan_stray_return b a.returned d (off stray) to_return to_line
                  (scan_line_feed a rest) (off stray) e r))
              (stray-AgreeRound rest index parsed)
        | inr e ↦ elim (Bool-cases (c == b'\n')) [
          | inl f ↦
              subst (AgreeRound rest index parsed)
                (sym (
                  scan_line_end b a.returned d (off stray) to_return to_line (scan_line_feed a rest)
                    (off stray) e r f))
                (subst (λ x. AgreeRound rest index x (scan_line_feed a rest))
                  (sym (
                    second_branch b d p.delimiter_start_in_prev_position returned_p
                      (after_line rest index (end_line (seg ++ (c ∷ rest)) start index p)) passed e
                      f (g.delimiter ∙ r)))
                  (end_line-Agree seg rest start index c p a g r))
          | inr f ↦
              subst (AgreeRound rest index parsed)
                (sym (
                  scan_stray b a.returned d (off stray) to_return to_line (scan_line_feed a rest)
                    (off stray) e r f))
                (stray-AgreeRound rest index parsed)
        ]
      ]
      | inr r ↦ elim (Bool-cases (c == b'\r')) [
        | inl e ↦
            let same : c ≡ b'\r' = ground arith in
            subst (AgreeRound rest index parsed)
              (sym (
                scan_first b a.returned d (off stray) to_return to_line (scan_line_feed a rest)
                  (off stray) e r))
              (subst (λ x. AgreeRound rest index x (on (record a { returned = true })))
                (sym (
                  first_branch b d p.delimiter_start_in_prev_position returned_p
                    (after_line rest index (end_line (seg ++ (c ∷ rest)) start index p)) passed e))
                (rw same (return-AgreeRound seg rest start index p a g r)))
        | inr e ↦
            subst (AgreeRound rest index parsed)
              (sym (
                scan_plain b a.returned d (off stray) to_return to_line (scan_line_feed a rest)
                  (off stray) e r))
              (subst (λ x. AgreeRound rest index x (on (record a { line = a.line ++ c ∷ [] })))
                (sym (
                  third_branch b d p.delimiter_start_in_prev_position returned_p
                    (after_line rest index (end_line (seg ++ (c ∷ rest)) start index p)) passed e
                    (g.delimiter ∙ r)))
                (pass-AgreeRound seg rest start index c p a g r))
      ]
    ]
