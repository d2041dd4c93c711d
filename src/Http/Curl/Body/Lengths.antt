-- ===== src/Http/Curl/Body/Lengths.antt =====
-- What the session of curl.cpp, for a response with a length that is not chunked, reads and has left: its fields.
use azure_sdk_for_cpp.Base.{
  ℕ, zero, suc, ◌+◌, ◌-◌, min, ◌≡◌, refl, ◌∙◌, sym, ap, ◌≤◌, ◌⊎◌, inl, inr, true, false, not, ◌&&◌,
  ◌||◌, [], ◌∷◌, ◌++◌, none, some, ltb, ◌==◌, length, take, drop, Bytes, arith, Bool-cases,
  if-false,
}
use azure_sdk_for_cpp.Base.{take-append, take_none, drop-drop}
use azure_sdk_for_cpp.Http.Curl.Session.{CurlSession, unread, is_length, is_eof}
use azure_sdk_for_cpp.Http.Curl.Session.Pending.{pending, Fits}
use azure_sdk_for_cpp.Http.Curl.Body.{
  read_request_length, is_cut_short, at_end_of_buffer, content_limit,
}

pub take-split : (k m : ℕ) (xs : Bytes) → take (k + m) xs ≡ take k xs ++ take m (drop k xs)
take-split zero m xs = let e : 0 + m ≡ m = omega arith in rw e refl
take-split (suc k) m [] = take_none (suc k + m) [] (inr refl) ∙ sym (take_none m [] (inr refl))
take-split (suc k) m (x ∷ xs) =
    let e : suc k + m ≡ suc (k + m) = omega arith in rw (e, take-split k m xs) refl

-- What is left of the internal buffer after some of its bytes.
pub unread-split :
    (s : CurlSession) (i j : ℕ)
    → j ≤ s.inner_buffer_size - i
    → unread s i ≡ take j (drop i s.read_buffer) ++ unread s (i + j)
unread-split s i j le =
    let size : s.inner_buffer_size - i ≡ j + (s.inner_buffer_size - i - j) = omega arith in
    let left : s.inner_buffer_size - i - j ≡ s.inner_buffer_size - (i + j) = omega arith in
    ap (λ k. take k (drop i s.read_buffer)) size
    ∙ (take-split j (s.inner_buffer_size - i - j) (drop i s.read_buffer)
        ∙ (ap (λ x. take j (drop i s.read_buffer) ++ take (s.inner_buffer_size - i - j) x)
              (drop-drop i j s.read_buffer)
            ∙ ap (λ k. take j (drop i s.read_buffer) ++ take k (drop (i + j) s.read_buffer)) left))

-- The start that a read of the internal buffer leaves.
pub pending-at_end_of_buffer :
    (s : CurlSession) (i : ℕ)
    → i ≤ s.inner_buffer_size
    → s.inner_buffer_size ≤ length s.read_buffer
    → (let t : CurlSession = record s {
      body_start_in_buffer = at_end_of_buffer i s.inner_buffer_size;
    } in
        (pending t ≡ unread s i) × Fits t)
pending-at_end_of_buffer s i le fits = elim (Bool-cases (i == s.inner_buffer_size)) [
  | inl e ↦
      rw e
        (sym (take_none (s.inner_buffer_size - i) (drop i s.read_buffer) (inl (ground arith))), tt)
  | inr e ↦ rw e (refl, (ground arith, fits))
]

-- A read moves bytes to its buffer.
pub take-moved :
    (n total : ℕ) (x b y : Bytes)
    → x ≡ b ++ y
    → length b ≤ suc n - total
    → take (suc n - total) x ≡ b ++ take (suc n - (total + length b)) y
take-moved n total x b y e le =
    let k : (suc n - total) - length b ≡ suc n - (total + length b) = omega arith in
    ap (take (suc n - total)) e ∙ (take-append (suc n - total) b y le ∙ ap (λ j. b ++ take j y) k)

-- A read that yields nothing was asked for nothing, or nothing is left.
pub nothing_left :
    (n total k count : ℕ)
    → total ≤ suc n
    → k ≡ 0
    → min count (suc n - total) ≡ 0
    → (count ≡ 0) ⊎ (total + k ≡ suc n)
nothing_left n total k zero le z e = inl refl
nothing_left n total k (suc count) le z e = inr (omega arith)

pub is_eof-read :
    (n : ℕ) (s : CurlSession)
    → s.is_chunked_response_type ≡ false
    → s.content_length ≡ some (suc n)
    → is_eof s ≡ true
    → s.session_total_read ≡ suc n
unfolding is_eof
is_eof-read n s e f z =
    let not_chunked =
      if-false s.is_chunked_response_type (s.chunk_size == 0)
        (is_length s.content_length s.session_total_read) e in
    let length = ap (λ o. is_length o s.session_total_read) f in
    let all : ((suc n == s.session_total_read) && s.is_streaming) ≡ true =
      sym (ap (λ b. b && s.is_streaming) (not_chunked ∙ length)) ∙ z in
    ground arith

-- The socket is closed, and what is read is not cut short: then all is read.
pub is_cut_short-read :
    (n : ℕ) (s : CurlSession) (read : ℕ)
    → s.is_chunked_response_type ≡ false
    → s.content_length ≡ some (suc n)
    → s.session_total_read ≤ suc n
    → read ≡ 0
    → is_cut_short s read ≡ false
    → s.session_total_read + read ≡ suc n
unfolding is_cut_short
is_cut_short-read n s read e f le z cut =
    let read_zero : (not (read == 0)) ≡ false = ground arith in
    let closed = if-false (not (read == 0)) _ _ read_zero in
    let plain = if-false s.is_chunked_response_type _ _ e in
    let short =
      ap (λ o. elim o [ none ↦ false | some m ↦ ltb (s.session_total_read + read) m ]) f in
    let left : ltb (s.session_total_read + read) (suc n) ≡ false =
      sym (closed ∙ (plain ∙ short)) ∙ cut in
    ground arith

pub is_length_or_eof-read :
    (n : ℕ) (s : CurlSession)
    → s.is_chunked_response_type ≡ false
    → s.content_length ≡ some (suc n)
    → (is_length s.content_length s.session_total_read || is_eof s) ≡ true
    → s.session_total_read ≡ suc n
is_length_or_eof-read n s e f z =
    let length = ap (λ o. is_length o s.session_total_read) f in
    elim (Bool-cases (is_eof s)) [
      | inl y ↦ is_eof-read n s e f y
      | inr y ↦
          let all : ((suc n == s.session_total_read) || is_eof s) ≡ true =
            sym (ap (λ b. b || is_eof s) length) ∙ z in
          ground arith
    ]

pub count_or_eof-read :
    (n : ℕ) (s : CurlSession) (count : ℕ)
    → s.is_chunked_response_type ≡ false
    → s.content_length ≡ some (suc n)
    → (count == 0 || is_eof s) ≡ true
    → (count ≡ 0) ⊎ (s.session_total_read ≡ suc n)
count_or_eof-read n s count e f z = elim (Bool-cases (is_eof s)) [
  | inl y ↦ inr (is_eof-read n s e f y)
  | inr y ↦ inl (ground arith)
]

pub read_request_length-min :
    (n : ℕ) (s : CurlSession) (count : ℕ)
    → s.is_chunked_response_type ≡ false
    → s.content_length ≡ some (suc n)
    → read_request_length s count ≡ min count (suc n - s.session_total_read)
unfolding read_request_length content_limit
read_request_length-min n s count e f =
    ap (content_limit _ s.session_total_read) f
    ∙ ap (λ k. min k (suc n - s.session_total_read)) (if-false s.is_chunked_response_type _ count e)
