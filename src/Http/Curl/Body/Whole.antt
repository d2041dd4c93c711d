-- ===== src/Http/Curl/Body/Whole.antt =====
-- A response with a length, from the socket of curl.cpp to `BodyStream::ReadToEnd`.
use azure_sdk_for_cpp.Base.{
  ℕ, suc, ◌+◌, ◌-◌, ◌*◌, min, ◌≡◌, refl, ◌∙◌, ap, ◌≤◌, ◌<◌, inl, inr, false, List, [], ◌++◌, none,
  some, ◌==◌, length, length-append, length-take, take, Bytes, Result, OnOk, OnOk-map, Returns,
  Returns-map, ok, arith,
}
use azure_sdk_for_cpp.Http.Streams.Ends.{Step, Returns-Whenever, read_to_end-AtEnd}
use azure_sdk_for_cpp.Http.Streams.{IsStream, IsStreamWithin, read_to_end, chunk_size}
use azure_sdk_for_cpp.Http.Streams.Complete.{read_to_end_within}
use azure_sdk_for_cpp.Base.{length-nil, take_none}
use azure_sdk_for_cpp.Http.Curl.Session.{SessionError, CurlSession}
use azure_sdk_for_cpp.Http.Curl.Session.Pending.{pending}
use azure_sdk_for_cpp.Http.Curl.Body.Plain.{
  Plain, plain_read, plain_content, Reads, plain_read-Reads,
}
use azure_sdk_for_cpp.Http.Response.{RawResponse}
use azure_sdk_for_cpp.Dict.{find}
use azure_sdk_for_cpp.Http.Curl.Parser.{is_carriage_return}
use azure_sdk_for_cpp.Http.Curl.Parser.Head.{head_text, head_response, AreHeaderLines}
use azure_sdk_for_cpp.Http.Curl.Session.{read_length, read_head}
use azure_sdk_for_cpp.Http.Curl.Session.Head.{read_head-Framed}
use azure_sdk_for_cpp.Base.{Without, codes}

module _ {W : Type 0} (read_from_socket : W → ℕ → Result SessionError (W × Bytes))
    (content : W → Bytes) where
  -- A read keeps the promise of a stream: of the bytes that the length of the content leaves.
  plain_read-IsStreamWithin :
      (n : ℕ)
      → IsStream read_from_socket content
      → IsStreamWithin (Plain n) (plain_read read_from_socket) (plain_content content n)
  unfolding IsStreamWithin Reads
  plain_read-IsStreamWithin n stream (s, w) count p =
      OnOk-map _ _ (plain_read read_from_socket (s, w) count)
        (λ (t, b) ((q, sum), (le, (moved, last))). (
          q,
          (
            le,
            (
              moved,
              λ z. elim (last z) [
                | inl e ↦ inl e
                | inr e ↦ inr (
                    moved
                    ∙ (ap (λ x. x ++ plain_content content n t) (length-nil b z)
                        ∙ take_none _ (pending t.0 ++ content t.1) (inl (omega arith))))
              ],
            ),
          ),
        ))
        (plain_read-Reads read_from_socket content n s w count stream p)

  -- What has been read and what can still be read make up `c` bytes.
  Sums : ℕ → ℕ → CurlSession × W → Type 0
  Sums n c x = Plain n x × (x.0.session_total_read + length (plain_content content n x) ≡ c)

  plain_read-Step :
      (n c : ℕ)
      → IsStream read_from_socket content
      → (x : CurlSession × W) (count : ℕ) → Sums n c x
      → OnOk
          (Step
            (plain_read read_from_socket)
            (Sums n c)
            (λ y. y.0.session_total_read ≡ suc n)
            count)
          (plain_read read_from_socket x count)
  unfolding Reads Sums
  plain_read-Step n c stream (s, w) count (p, e) =
      OnOk-map _ _ (plain_read read_from_socket (s, w) count)
        (λ (t, b) ((q, sum), (le, (moved, last))).
          let l : length (plain_content content n (s, w))
              ≡ length b + length (plain_content content n t) =
            ap length moved ∙ length-append b (plain_content content n t) in
          ((q, omega arith), (le, last)))
        (plain_read-Reads read_from_socket content n s w count stream p)

  -- The body of a response with a length, of which nothing has been read, is read whole or the reading
  -- throws: whatever the pieces in which the socket yields it, with fuel for its chunks `ReadToEnd` ends
  -- with the bytes that the length says, and the body is not shorter than that.
  pub read_to_end-plain_read :
      (fuel n : ℕ) (s : CurlSession) (w : W) (body : Bytes)
      → IsStream read_from_socket content
      → Plain n (s, w)
      → s.session_total_read ≡ 0
      → pending s ++ content w ≡ body
      → suc n < fuel * chunk_size
      → Returns
          (λ (x, b). (b ≡ take (suc n) body) × (suc n ≤ length body))
          (read_to_end (plain_read read_from_socket) fuel (s, w) [])
  unfolding Sums
  read_to_end-plain_read fuel n s w body stream p total e lt =
      let same_size : suc n - 0 ≡ suc n = omega arith in
      let all : plain_content content n (s, w) ≡ take (suc n) body =
        ap (λ k. take (suc n - k) (pending s ++ content w)) total
        ∙ (ap (take (suc n - 0)) e ∙ ap (λ k. take k body) same_size) in
      let size : length (plain_content content n (s, w)) ≡ min (suc n) (length body) =
        ap length all ∙ length-take (suc n) body in
      Returns-map _ _ (read_to_end (plain_read read_from_socket) fuel (s, w) [])
        (λ (x, b) ((q, (whole, left)), ((r, sum), end)).
          let none_left : length (plain_content content n x) ≡ 0 = ap length left in
          (whole ∙ all, omega arith))
        (Returns-Whenever _ _ (read_to_end (plain_read read_from_socket) fuel (s, w) [])
          (read_to_end_within (plain_read read_from_socket) (plain_content content n) (Plain n)
            (plain_read-IsStreamWithin n stream) fuel (s, w) [] p (omega arith))
          (read_to_end-AtEnd (plain_read read_from_socket)
            (Sums n (s.session_total_read + length (plain_content content n (s, w))))
            (λ y. y.0.session_total_read ≡ suc n)
            (plain_read-Step n (s.session_total_read + length (plain_content content n (s, w)))
              stream)
            fuel (s, w) [] (p, refl)))

module _ {W : Type 0} (read_from_socket : W → ℕ → Result SessionError (W × Bytes))
    (content : W → Bytes) where
  -- A response to another request than HEAD, not of status 204 and not chunked, with a length of its
  -- content that is not zero, sent on the socket in whatever pieces, is read whole or something throws: a
  -- new session reads the head, and `ReadToEnd` of it yields the bytes after the head that the length
  -- says, and there are as many. No line of the head has a stray carriage return, and the fuel is enough
  -- for the bytes of the socket and the rounds for the chunks of the content.
  pub read_to_end-read_head :
      (fuel m n : ℕ) (s : CurlSession) (w : W) (status : Bytes) (hs : List Bytes) (body : Bytes)
      (r : RawResponse) (value : Bytes)
      → IsStream read_from_socket content
      → s.body_start_in_buffer ≡ none
      → s.is_head_request ≡ false
      → s.is_chunked_response_type ≡ false
      → s.session_total_read ≡ 0
      → content w ≡ head_text status hs ++ body
      → Without is_carriage_return status
      → AreHeaderLines hs
      → length (content w) < fuel
      → head_response status hs ≡ ok (some r)
      → (r.status_code == 204) ≡ false
      → find (codes "content-length") r.headers ≡ some value
      → read_length value ≡ ok (suc n)
      → suc n < m * chunk_size
      → Returns
          (λ x.
            (x.0.response ≡ some r)
            × Returns
                (λ (y, b). (b ≡ take (suc n) body) × (suc n ≤ length body))
                (read_to_end (plain_read read_from_socket) m x []))
          (read_head read_from_socket fuel false s w)
  unfolding Plain
  read_to_end-read_head fuel m n s w status hs body r value stream start hd chunked total e ws wh lt
        response st f l size =
      Returns-map _ _ (read_head read_from_socket fuel false s w)
        (λ (t, v) ((a, g), (left, ((i, (j, (k, z))), fits))). (
          a,
          read_to_end-plain_read read_from_socket content m n t v body stream
              (((k ∙ chunked), g), (omega arith, fits)) (z ∙ total) left size,
        ))
        (read_head-Framed read_from_socket content fuel s w status hs body r value (suc n) stream
          start hd e ws wh lt response st f l)
