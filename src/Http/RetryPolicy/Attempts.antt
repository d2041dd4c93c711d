-- ===== src/Http/RetryPolicy/Attempts.antt =====
-- The loop of `RetryPolicy::Send` ends, and every attempt is made with the same request.
use azure_sdk_for_cpp.Base.{
  [], sym, ℕ, zero, suc, ◌+◌, ◌≡◌, refl, ap, ◌∙◌, ◌≤◌, ◌<◌, true, List, Option, none, some, ltb,
  if◌then◌else◌, Bytes, Result, ok, err, arith, Bool-cases, ltb→lt, ltb→le, inl, inr,
}
use azure_sdk_for_cpp.Http.Streams.{memory_rewind}
use azure_sdk_for_cpp.Http.Request.{Request, start_try}
use azure_sdk_for_cpp.Http.Response.{RawResponse}
use azure_sdk_for_cpp.Http.RetryPolicy.{
  RetryOptions, Failure, transport_failure, bad_delay, operation_canceled, other_failure,
  Surroundings, Sent, judge, restore, finish_round, send_loop, send, was_last_attempt,
  should_retry_on_response, should_retry_on_transport_failure,
}

module _ {W : Type 0} (out : Surroundings W) (retry_options : RetryOptions) where
  -- After the last attempt there is no other.
  judge-last :
      (result : Result Failure RawResponse) (attempt : ℕ) (w : W)
      → retry_options.max_retries < attempt
      → (o : Result Failure RawResponse) × (judge out retry_options result attempt w ≡ err o)
  unfolding judge should_retry_on_response should_retry_on_transport_failure was_last_attempt
  judge-last (ok response) attempt w lt =
      let e : ltb retry_options.max_retries attempt ≡ true = ground arith in
      (ok response, rw (judge, e) refl)
  judge-last (err transport_failure) attempt w lt =
      let e : ltb retry_options.max_retries attempt ≡ true = ground arith in
      (err transport_failure, rw (judge, e) refl)
  judge-last (err bad_delay) attempt w lt = (err bad_delay, refl)
  judge-last (err operation_canceled) attempt w lt = (err operation_canceled, refl)
  judge-last (err other_failure) attempt w lt = (err other_failure, refl)

  -- `Send` returns or throws, and in which attempt.
  abbrev pub EndsBy : ℕ → Option (Sent W) → Type 0
  EndsBy n none = ⊥
  EndsBy n (some s) = s.attempt ≤ n

  send_loop-EndsBy :
      (fuel attempt : ℕ) (request : Request) (w : W)
      → attempt ≤ suc retry_options.max_retries
      → suc (suc retry_options.max_retries) ≤ attempt + fuel
      → EndsBy (suc retry_options.max_retries) (send_loop out retry_options fuel attempt request w)
  unfolding send_loop finish_round
  send_loop-EndsBy zero attempt request w le enough = absurd (omega arith)
  send_loop-EndsBy (suc fuel) attempt request w le enough =
      let (result, (changed, w')) = out.next (start_try request) w in
      round changed w' (judge out retry_options result attempt w') (judge-last result attempt w')
        (λ lt r v. send_loop-EndsBy fuel (suc attempt) r v lt (omega arith))
    where
      round :
          (changed : Request) (w' : W) (j : Result (Result Failure RawResponse) ℕ)
          → (retry_options.max_retries < attempt → (o : Result Failure RawResponse) × (j ≡ err o))
          → (suc attempt ≤ suc retry_options.max_retries
              → (r : Request) (v : W)
              → EndsBy
                  (suc retry_options.max_retries)
                  (send_loop out retry_options fuel (suc attempt) r v))
          → EndsBy (suc retry_options.max_retries) (
              finish_round out retry_options
                (start_try request).url.encoded_query_parameters
                attempt
                changed
                w'
                (send_loop out retry_options fuel (suc attempt))
                j)
      round changed w' (err o) last rest = le
      round changed w' (ok delay) last rest =
          let slept = if ltb 0 delay then out.sleep delay w' else w' in
          elim (Bool-cases (out.is_canceled slept)) [
            | inl e ↦ rw e le
            | inr e ↦ elim (Bool-cases (ltb retry_options.max_retries attempt)) [
              | inl over ↦
                  let (o, ended) = last (ltb→lt retry_options.max_retries attempt over) in absurd cc
              | inr more ↦ rw e (
                  rest (omega (arith, ltb→le retry_options.max_retries attempt more))
                    (restore out retry_options (start_try request).url.encoded_query_parameters
                      changed)
                    slept)
            ]
          ]

  -- `Send` ends, and makes at most one attempt and the retries: whatever the transport does, with
  -- fuel for them the loop returns or throws, in an attempt that is not beyond the last one.
  pub send-EndsBy :
      (request : Request) (w : W)
      → EndsBy (suc retry_options.max_retries) (send out retry_options request w)
  unfolding send
  send-EndsBy request w =
      send_loop-EndsBy (suc retry_options.max_retries) 1 request w (omega arith) (omega arith)

  -- The request at the start of a try, with some query parameters and its body at the start.
  abbrev pub at_start : List (Bytes × Bytes) → Request → Request
  at_start q r = record r {
    url = record r.url { encoded_query_parameters = q };
    retry_headers = [];
    retry_mode_enabled = true;
    body = record r.body { offset = 0 };
  }

  -- The next policies change nothing else of a request.
  abbrev pub Keeps : Type 0
  Keeps =
      (r : Request) (w : W)
      → at_start r.url.encoded_query_parameters (out.next r w).1.0
        ≡ at_start r.url.encoded_query_parameters r

  IsFresh : Request → Type 0
  IsFresh r = at_start r.url.encoded_query_parameters r ≡ r

  start_try-IsFresh : (r : Request) → r.body.offset ≡ 0 → IsFresh (start_try r)
  unfolding start_try IsFresh
  start_try-IsFresh r e =
      ap (λ n. record (start_try r) { body = record r.body { offset = n } }) (sym e)

  -- The loop that makes every attempt with the request it is given, whatever became of it.
  unfoldable pub repeat_loop : ℕ → ℕ → Request → W → Option (Sent W)
  repeat_loop zero attempt request w = none
  repeat_loop (suc fuel) attempt request w =
      let (result, (changed, w')) = out.next request w in
      finish_round out retry_options request.url.encoded_query_parameters attempt changed w'
        (λ r. repeat_loop fuel (suc attempt) request) (judge out retry_options result attempt w')

  start_try-restore :
      (q : List (Bytes × Bytes)) (r : Request)
      → start_try (restore out retry_options q r) ≡ at_start q r
  unfolding start_try restore memory_rewind
  start_try-restore q r = refl

  send_loop-repeat_loop :
      (fuel attempt : ℕ) (request fresh : Request) (w : W)
      → Keeps
      → IsFresh fresh
      → start_try request ≡ fresh
      → send_loop out retry_options fuel attempt request w ≡ repeat_loop fuel attempt fresh w
  unfolding send_loop repeat_loop finish_round IsFresh
  send_loop-repeat_loop zero attempt request fresh w keeps f e = refl
  send_loop-repeat_loop (suc fuel) attempt request fresh w keeps f e = rw e (
      round (out.next fresh w).1.0 (out.next fresh w).1.1
        (judge out retry_options (out.next fresh w).0 attempt (out.next fresh w).1.1)
        (λ r v. send_loop-repeat_loop fuel (suc attempt) r fresh v keeps f) (keeps fresh w))
    where
      round :
          (changed : Request) (w' : W) (j : Result (Result Failure RawResponse) ℕ)
          → ((r : Request) (v : W)
              → start_try r ≡ fresh
              → send_loop out retry_options fuel (suc attempt) r v
                ≡ repeat_loop fuel (suc attempt) fresh v)
          → at_start fresh.url.encoded_query_parameters changed
            ≡ at_start fresh.url.encoded_query_parameters fresh
          → finish_round out retry_options fresh.url.encoded_query_parameters attempt changed w'
              (send_loop out retry_options fuel (suc attempt))
              j
            ≡ finish_round out retry_options fresh.url.encoded_query_parameters attempt changed w'
                (λ r. repeat_loop fuel (suc attempt) fresh)
                j
      round changed w' (err o) rest k = refl
      round changed w' (ok delay) rest k =
          let slept = if ltb 0 delay then out.sleep delay w' else w' in
          let restored = restore out retry_options fresh.url.encoded_query_parameters changed in
          rw
            (rest restored slept
              (start_try-restore fresh.url.encoded_query_parameters changed ∙ (k ∙ f)))
            refl

  -- If the body of the request is at its start, and the next policies change nothing of a request but
  -- its query parameters, the headers of the try and the offset of its body, then every attempt of
  -- `Send` is made with the same request: the result is that of the loop that starts each attempt from
  -- the given request, its body at the start and without headers of a try.
  pub send-repeat_loop :
      (request : Request) (w : W)
      → Keeps
      → request.body.offset ≡ 0
      → send out retry_options request w
        ≡ repeat_loop (suc retry_options.max_retries) 1 (start_try request) w
  unfolding send
  send-repeat_loop request w keeps start =
      send_loop-repeat_loop (suc retry_options.max_retries) 1 request (start_try request) w keeps
        (start_try-IsFresh request start) refl
