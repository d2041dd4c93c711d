-- ===== src/Http/Curl/Body/Plain.antt =====
-- The body of a response with a length, read from the session of curl.cpp.
use mathlib.Core.List.{append_assoc}
use azure_sdk_for_cpp.Base.{
  ℕ, suc, ◌+◌, ◌-◌, min, ◌≡◌, refl, ◌∙◌, sym, ap, subst, ◌≤◌, ◌<◌, ◌⊎◌, inl, inr, false, not, ◌&&◌,
  ◌||◌, [], ◌++◌, none, some, ◌==◌, if◌then◌else◌, length, length-take, length-drop, take, drop,
  Bytes, Result, OnOk, ok, err, ◌>>=◌, ◌>>◌, require, arith, Bool-cases, Option-cases, if-true,
  if-false,
}
use azure_sdk_for_cpp.Http.Streams.{IsStream}
use azure_sdk_for_cpp.Http.Curl.Session.{
  SessionError, incomplete_body, CurlSession, unread, is_length, is_eof,
}
use azure_sdk_for_cpp.Http.Curl.Session.Pending.{pending, Fits}
use azure_sdk_for_cpp.Http.Curl.Body.{
  next_chunk, read_request_length, read_inner, is_cut_short, read_socket, read_bytes,
  read_after_chunk, session_read, read_at,
}
use azure_sdk_for_cpp.Http.Curl.Body.Lengths.{
  unread-split, pending-at_end_of_buffer, take-moved, nothing_left, is_cut_short-read,
  is_length_or_eof-read, count_or_eof-read, read_request_length-min,
}

module _ {W : Type 0} (read_from_socket : W → ℕ → Result SessionError (W × Bytes)) where
  -- A read of a response that is not chunked.
  unfoldable pub plain_read : CurlSession × W → ℕ → Result SessionError ((CurlSession × W) × Bytes)
  plain_read (s, w) count =
      if count == 0 || is_eof s then ok ((s, w), []) else read_bytes read_from_socket s w count

  pub session_read-plain_read :
      (fuel : ℕ) (s : CurlSession) (w : W) (count : ℕ)
      → s.is_chunked_response_type ≡ false
      → session_read read_from_socket fuel (s, w) count ≡ some (plain_read (s, w) count)
  unfolding session_read plain_read next_chunk read_after_chunk
  session_read-plain_read fuel s w count e = elim (Bool-cases (count == 0 || is_eof s)) [
    | inl f ↦
        if-true (count == 0 || is_eof s) _ _ f
        ∙ sym (ap some (if-true (count == 0 || is_eof s) _ _ f))
    | inr f ↦
        let no_chunk = ap (λ b. b && (s.chunk_size == s.session_total_read)) e in
        if-false (count == 0 || is_eof s) _ _ f
        ∙ (ap (read_after_chunk read_from_socket count) (
              if-false (s.is_chunked_response_type && s.chunk_size == s.session_total_read) _ _
                no_chunk)
            ∙ (if-false (s.is_chunked_response_type && is_eof s) _ _ (ap (λ b. b && is_eof s) e)
                ∙ sym (ap some (if-false (count == 0 || is_eof s) _ _ f))))
  ]

-- The response has this length, and no more than it has been read.
unfoldable pub Plain : {W : Type 0} → ℕ → CurlSession × W → Type 0
Plain n (s, w) =
    ((s.is_chunked_response_type ≡ false) × (s.content_length ≡ some (suc n)))
    × ((s.session_total_read ≤ suc n) × Fits s)

-- The bytes of the body that are still to be read.
abbrev pub plain_content : {W : Type 0} → (W → Bytes) → ℕ → CurlSession × W → Bytes
plain_content content n (s, w) = take (suc n - s.session_total_read) (pending s ++ content w)

-- What a read does.
unfoldable pub Reads :
    {W : Type 0} → (W → Bytes) → ℕ → CurlSession → W → ℕ → (CurlSession × W) × Bytes → Type 0
Reads content n s w count (t, b) =
    (Plain n t × (t.0.session_total_read ≡ s.session_total_read + length b))
    × ((length b ≤ count)
        × ((plain_content content n (s, w) ≡ b ++ plain_content content n t)
            × ((length b ≡ 0) → (count ≡ 0) ⊎ (t.0.session_total_read ≡ suc n))))

module _ {W : Type 0} (read_from_socket : W → ℕ → Result SessionError (W × Bytes))
    (content : W → Bytes) where
  read_inner-Reads :
      (n i : ℕ) (s : CurlSession) (w : W) (count : ℕ)
      → Plain n (s, w)
      → s.body_start_in_buffer ≡ some i
      → (let r = read_inner s i (min count (suc n - s.session_total_read)) in
          Reads content n s w count ((r.0, w), r.1))
  unfolding Reads read_inner Plain
  read_inner-Reads n i s w count ((e, f), (total, fits)) start =
      let (lt, le) =
        subst
          (λ o. elim o [
            | none ↦ Unit {0}
            | some i ↦ (i < s.inner_buffer_size) × (s.inner_buffer_size ≤ length s.read_buffer)
          ])
          start fits in
      let j = min (min count (suc n - s.session_total_read)) (s.inner_buffer_size - i) in
      let b = take j (drop i s.read_buffer) in
      let l : length b ≡ j =
        length-take j (drop i s.read_buffer)
        ∙ (let k = length-drop i s.read_buffer in omega arith) in
      let (p, fit) = pending-at_end_of_buffer s (i + length b) (omega arith) le in
      let q : pending s ≡ b ++ unread s (i + length b) =
        ap (λ o. pending (record s { body_start_in_buffer = o })) start
        ∙ (unread-split s i j (omega arith) ∙ ap (λ k. b ++ unread s (i + k)) (sym l)) in
      (
        (((e, f), (omega arith, fit)), refl),
        (
          omega arith,
          (
            take-moved n s.session_total_read (pending s ++ content w) b _
                (ap (λ x. x ++ content w) (q ∙ ap (λ x. b ++ x) (sym p))
                  ∙ append_assoc b _ (content w))
                (omega arith),
            λ z. nothing_left n s.session_total_read (length b) count total z (omega arith),
          ),
        ),
      )

  read_socket-Reads :
      (n : ℕ) (s : CurlSession) (w : W) (count : ℕ)
      → IsStream read_from_socket content
      → Plain n (s, w)
      → s.body_start_in_buffer ≡ none
      → OnOk
          (Reads content n s w count)
          (read_socket read_from_socket s w (min count (suc n - s.session_total_read)))
  unfolding IsStream Plain Reads read_socket
  read_socket-Reads n s w count stream ((e, f), (total, fits)) start =
      received (read_from_socket w k) (stream w k)
    where
      k : ℕ
      k = min count (suc n - s.session_total_read)

      received :
          (o : Result SessionError (W × Bytes))
          → OnOk
              (λ ((w', b) : W × Bytes).
                (length b ≤ k)
                × ((content w ≡ b ++ content w') × ((length b ≡ 0) → (k ≡ 0) ⊎ (content w ≡ []))))
              o
          → OnOk (Reads content n s w count) (
              o >>= λ (w', b).
              require (not (is_cut_short s (length b))) incomplete_body
              >> ok ((record s { session_total_read = s.session_total_read + length b }, w'), b))
      received (err x) p = tt
      received (ok (w', b)) (le, (c, empty)) = elim (Bool-cases (is_cut_short s (length b))) [
        | inl z ↦ rw z tt
        | inr z ↦
            let p : pending s ≡ [] =
              ap (λ o. pending (record s { body_start_in_buffer = o })) start in
            rw z (
              (
                (
                  (e, f),
                  (
                    omega arith,
                    subst (λ o. Fits (record s { body_start_in_buffer = o })) (sym start) tt,
                  ),
                ),
                refl,
              ),
              (
                omega arith,
                (
                  take-moved n s.session_total_read (pending s ++ content w) b _
                      (ap (λ x. x ++ content w) p ∙ (c ∙ ap (λ x. b ++ (x ++ content w')) (sym p)))
                      (omega arith),
                  λ k. inr (is_cut_short-read n s (length b) e f total k z),
                ),
              ),
            )
      ]

  -- A read of nothing.
  nothing-Reads :
      (n : ℕ) (s : CurlSession) (w : W) (count : ℕ)
      → Plain n (s, w)
      → (count ≡ 0) ⊎ (s.session_total_read ≡ suc n)
      → Reads content n s w count ((s, w), [])
  unfolding Reads
  nothing-Reads n s w count p (inl e) = ((p, omega arith), (omega arith, (refl, λ z. inl e)))
  nothing-Reads n s w count p (inr e) = ((p, omega arith), (omega arith, (refl, λ z. inr e)))

  read_bytes-Reads :
      (n : ℕ) (s : CurlSession) (w : W) (count : ℕ)
      → IsStream read_from_socket content
      → Plain n (s, w)
      → OnOk (Reads content n s w count) (read_bytes read_from_socket s w count)
  unfolding read_bytes read_at Plain
  read_bytes-Reads n s w count stream p =
      let limit = read_request_length-min n s count p.0.0 p.0.1 in
      elim (Option-cases s.body_start_in_buffer) [
        | inr (i, start) ↦
            subst
              (λ o.
                OnOk (Reads content n s w count)
                  (read_at read_from_socket s w (read_request_length s count) o))
              (sym start)
              (subst (λ k. let r = read_inner s i k in Reads content n s w count ((r.0, w), r.1))
                (sym limit) (read_inner-Reads n i s w count p start))
        | inl start ↦
            subst
              (λ o.
                OnOk (Reads content n s w count)
                  (read_at read_from_socket s w (read_request_length s count) o))
              (sym start)
              (elim (Bool-cases (is_length s.content_length s.session_total_read || is_eof s)) [
                | inl z ↦
                    subst (OnOk (Reads content n s w count)) (sym (if-true _ _ _ z))
                      (nothing-Reads n s w count p (inr (is_length_or_eof-read n s p.0.0 p.0.1 z)))
                | inr z ↦ subst (OnOk (Reads content n s w count)) (sym (if-false _ _ _ z)) (
                    subst
                      (λ k. OnOk (Reads content n s w count) (read_socket read_from_socket s w k))
                      (sym limit) (read_socket-Reads n s w count stream p start))
              ])
      ]

  pub plain_read-Reads :
      (n : ℕ) (s : CurlSession) (w : W) (count : ℕ)
      → IsStream read_from_socket content
      → Plain n (s, w)
      → OnOk (Reads content n s w count) (plain_read read_from_socket (s, w) count)
  unfolding plain_read Plain
  plain_read-Reads n s w count stream p = elim (Bool-cases (count == 0 || is_eof s)) [
    | inl z ↦
        subst (OnOk (Reads content n s w count)) (sym (if-true _ _ _ z))
          (nothing-Reads n s w count p (count_or_eof-read n s count p.0.0 p.0.1 z))
    | inr z ↦
        subst (OnOk (Reads content n s w count)) (sym (if-false _ _ _ z))
          (read_bytes-Reads n s w count stream p)
  ]
