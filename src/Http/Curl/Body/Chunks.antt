-- ===== src/Http/Curl/Body/Chunks.antt =====
-- `CurlSession::ParseChunkSize` of curl.cpp: the sizes of the chunks of a response.
use azure_sdk_for_cpp.Base.{
  ℕ, zero, suc, ◌+◌, ◌-◌, ◌≡◌, refl, ◌∙◌, sym, ap, Bool, true, false, [], ◌∷◌, ◌++◌, none, some,
  ltb, ◌==◌, ◌&&◌, length, take, drop, Bytes, Result, ok, arith, if-false, Without, length-append,
  length-take, ◌≤◌,
}
use azure_sdk_for_cpp.Base.{drop-append}
use azure_sdk_for_cpp.Http.Curl.Body.Lengths.{unread-split}
use azure_sdk_for_cpp.Http.Curl.Session.Pending.{pending}
use azure_sdk_for_cpp.Http.Curl.Session.{
  SessionError, CurlSession, reader_size, start_of, unread, line_feed_at, pull, follow_pull,
  chunk_loop, chunk_line, read_chunk_size,
}

abbrev pub is_line_feed : ℕ → Bool
is_line_feed c = c == b'\n'

line_feed_at-append :
    (i : ℕ) (line rest : Bytes)
    → Without is_line_feed line
    → 2 ≤ i + length line
    → line_feed_at i (line ++ b'\n' ∷ rest) ≡ some (i + length line)
unfolding line_feed_at
line_feed_at-append i [] rest w le =
    let e : ltb 1 i ≡ true = ground arith in let z : i + 0 ≡ i = omega arith in rw (e, z) refl
line_feed_at-append i (c ∷ line) rest (w, ws) le =
    let k : suc i + length line ≡ i + suc (length line) = omega arith in
    if-false (ltb 1 i && c == b'\n') _ _ (ground arith)
    ∙ (line_feed_at-append (suc i) line rest ws (omega arith) ∙ ap some k)

-- The bytes after some that are read, and where they end.
unread-drop :
    (s : CurlSession) (i j : ℕ)
    → j ≤ length (unread s i)
    → (unread s (i + j) ≡ drop j (unread s i)) × (length (unread s i) ≤ s.inner_buffer_size - i)
unread-drop s i j le =
    let size = length-take (s.inner_buffer_size - i) (drop i s.read_buffer) in
    let l = length-take j (drop i s.read_buffer) in
    let e = unread-split s i j (omega arith) in
    let z : j - length (take j (drop i s.read_buffer)) ≡ 0 = omega arith in
    (
      sym (
          ap (drop j) e
          ∙ (drop-append j (take j (drop i s.read_buffer)) (unread s (i + j)) (omega arith)
              ∙ ap (λ k. drop k (unread s (i + j))) z)),
      omega arith,
    )

drop-line : (line rest : Bytes) (c : ℕ) → drop (suc (length line)) (line ++ c ∷ rest) ≡ rest
drop-line [] rest c = refl
drop-line (d ∷ line) rest c = drop-line line rest c

take-line :
    (line rest : Bytes) (c : ℕ) → take (suc (length line)) (line ++ c ∷ rest) ≡ line ++ c ∷ []
take-line [] rest c = refl
take-line (d ∷ line) rest c = ap (◌∷◌ d) (take-line line rest c)

module _ {W : Type 0} (read_from_socket : W → ℕ → Result SessionError (W × Bytes)) where
  -- Where the server has closed the connection, so that the socket yields no more bytes, and no line feed
  -- ends the size of a chunk in the buffer, `ParseChunkSize` does not end, whatever the fuel.
  pub chunk_loop-closed :
      (fuel : ℕ) (text : Bytes) (s : CurlSession) (w : W)
      → read_from_socket w reader_size ≡ ok (w, [])
      → line_feed_at 0 (unread s (start_of s.body_start_in_buffer)) ≡ none
      → chunk_loop read_from_socket fuel text s w ≡ none
  unfolding chunk_loop follow_pull pull line_feed_at
  chunk_loop-closed zero text s w closed no_line = refl
  chunk_loop-closed (suc fuel) text s w closed no_line =
      rw (chunk_loop, no_line, pull, closed, follow_pull)
        (chunk_loop-closed fuel (text ++ unread s (start_of s.body_start_in_buffer)) _ w closed
          refl)

  chunk_line-next :
      (n : ℕ) (s : CurlSession) (w : W) (index : ℕ)
      → (suc index == s.inner_buffer_size) ≡ false
      → chunk_line read_from_socket s w index (suc n)
        ≡ ok (record s { chunk_size = suc n; body_start_in_buffer = some (suc index) }, w)
  unfolding chunk_line
  chunk_line-next n s w index inside =
      let some_size : (suc n == 0) ≡ false = ground arith in
      if-false (suc n == 0) _ _ some_size ∙ if-false (suc index == s.inner_buffer_size) _ _ inside

  -- Where a line of at least two bytes and a line feed is in the buffer, with the size of a chunk that is
  -- not empty, and something comes after it, `ParseChunkSize` ends, reads nothing more from the socket,
  -- yields the size of the line, and what comes after the line is what is read next.
  pub chunk_loop-line :
      (fuel n : ℕ) (s : CurlSession) (w : W) (line rest : Bytes) (c : ℕ)
      → unread s (start_of s.body_start_in_buffer) ≡ line ++ b'\n' ∷ c ∷ rest
      → Without is_line_feed line
      → 2 ≤ length line
      → read_chunk_size (line ++ b'\n' ∷ []) ≡ ok (suc n)
      → (let t = record s {
        chunk_size = suc n;
        body_start_in_buffer = some (suc (start_of s.body_start_in_buffer + length line));
      } in
          (chunk_loop read_from_socket (suc fuel) [] s w ≡ some (ok (t, w)))
          × (pending t ≡ c ∷ rest))
  unfolding chunk_loop chunk_line
  chunk_loop-line fuel n s w line rest c e lines le size =
      let start = start_of s.body_start_in_buffer in
      let l : length (unread s start) ≡ length line + suc (suc (length rest)) =
        ap length e ∙ length-append line (b'\n' ∷ c ∷ rest) in
      let zero_plus : 0 + length line ≡ length line = omega arith in
      let (left, bound) = unread-drop s start (suc (length line)) (omega arith) in
      let found : line_feed_at 0 (unread s start) ≡ some (length line) =
        ap (line_feed_at 0) e
        ∙ (line_feed_at-append 0 line (c ∷ rest) lines (omega arith) ∙ ap some zero_plus) in
      let next : start + suc (length line) ≡ suc (start + length line) = omega arith in
      let inside : (suc (start + length line) == s.inner_buffer_size) ≡ false = ground arith in
      (
        rw (chunk_loop, found, e, take-line line (c ∷ rest) b'\n', size)
            (ap some (chunk_line-next n s w (start + length line) inside)),
        ap (unread s) (sym next)
            ∙ (left ∙ (ap (drop (suc (length line))) e ∙ drop-line line (c ∷ rest) b'\n')),
      )
