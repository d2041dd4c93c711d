-- ===== src/Http/Curl/Session/Pending.antt =====
-- The internal buffer of the session of curl.cpp: the bytes of the body that are in it.
use azure_sdk_for_cpp.Base.{
  ℕ, zero, suc, ◌-◌, ◌≡◌, refl, sym, ◌≤◌, ◌<◌, inl, inr, [], ◌∷◌, ◌++◌, none, some, ltb, ltb→lt,
  ltb→le, length, length-append, drop, Bytes, arith, Bool-cases,
}
use azure_sdk_for_cpp.Base.{drop_all}
use azure_sdk_for_cpp.Http.Curl.Parser.Agreement.{take-length}
use azure_sdk_for_cpp.Http.Curl.Session.{CurlSession, unread, fill, body_start}

-- The bytes of the body in the internal buffer.
abbrev pub pending : CurlSession → Bytes
pending s = elim s.body_start_in_buffer [ none ↦ [] | some i ↦ unread s i ]

drop-append-le : (n : ℕ) (b x : Bytes) → n ≤ length b → drop n (b ++ x) ≡ drop n b ++ x
drop-append-le zero b x le = refl
drop-append-le (suc n) [] x le = absurd (omega arith)
drop-append-le (suc n) (c ∷ b) x le = drop-append-le n b x (omega arith)

length-drop-le : (n : ℕ) (b : Bytes) → n ≤ length b → length b - n ≡ length (drop n b)
length-drop-le zero b le = omega arith
length-drop-le (suc n) [] le = absurd (omega arith)
length-drop-le (suc n) (c ∷ b) le = omega (arith, length-drop-le n b (omega arith))

-- What the parser left of the buffer is what is pending.
pub pending-body_start :
    (s : CurlSession) (b buffer : Bytes) (n : ℕ)
    → n ≤ length b
    → s.read_buffer ≡ fill b buffer
    → pending (record s {
      inner_buffer_size = length b;
      body_start_in_buffer = body_start n (length b) none;
    })
      ≡ drop n b
pending-body_start s b buffer n le e = elim (Bool-cases (ltb n (length b))) [
  | inl l ↦ rw l (
      rw (e, drop-append-le n b (drop (length b) buffer) le, length-drop-le n b le)
        (take-length (drop n b) (drop (length b) buffer)))
  | inr l ↦ rw l (sym (drop_all n b (ltb→le n (length b) l)))
]

-- The body starts inside of the internal buffer.
abbrev pub Fits : CurlSession → Type 0
Fits s = elim s.body_start_in_buffer [
  | none ↦ Unit {0}
  | some i ↦ (i < s.inner_buffer_size) × (s.inner_buffer_size ≤ length s.read_buffer)
]

pub Fits-body_start :
    (s : CurlSession) (b buffer : Bytes) (n : ℕ)
    → s.read_buffer ≡ fill b buffer
    → Fits (record s {
      inner_buffer_size = length b;
      body_start_in_buffer = body_start n (length b) none;
    })
Fits-body_start s b buffer n e = elim (Bool-cases (ltb n (length b))) [
  | inl l ↦ rw l (
    ltb→lt n (length b) l,
    rw e (let k = length-append b (drop (length b) buffer) in omega arith),
  )
  | inr l ↦ rw l tt
]

-- The fields that the loop over the head leaves as they are.
abbrev pub SameSession : CurlSession → CurlSession → Type 0
SameSession s t =
    (t.is_streaming ≡ s.is_streaming)
    × ((t.is_head_request ≡ s.is_head_request)
        × ((t.is_chunked_response_type ≡ s.is_chunked_response_type)
            × (t.session_total_read ≡ s.session_total_read)))
