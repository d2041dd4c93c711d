-- ===== src/Http/RetryPolicy.antt =====
-- sdk/core/azure-core/src/http/retry_policy.cpp. Delays are numbers of milliseconds; a negative one,
-- which is not slept, is 0. The log of the retries is left out.
pub mod Attempts
pub mod Delays
mod Tests
use azure_sdk_for_cpp.Base.{
  ◌/◌, ℕ, zero, suc, ◌+◌, ◌-◌, ◌*◌, ◌^◌, min, Bool, true, false, not, ◌&&◌, ◌||◌, List, [], ◌∷◌,
  Option, none, some, ltb, leb, ◌==◌, if◌then◌else◌, Bytes, codes, until, from, is_decimal, decimal,
  is_empty, Result, ok, err, ◌>>=◌, ◌>>◌, require,
}
use azure_sdk_for_cpp.Dict.{find}
use azure_sdk_for_cpp.Http.Url.{Url}
use azure_sdk_for_cpp.Http.Streams.{memory_rewind}
use azure_sdk_for_cpp.Http.Request.{Request, start_try}
use azure_sdk_for_cpp.Http.Response.{RawResponse}

pub record RetryOptions : Type 0 where
  pub max_retries : ℕ
  pub retry_delay : ℕ
  pub max_retry_delay : ℕ
  pub status_codes : List ℕ

-- What `Send` throws: a `TransportException`, one from reading a delay, and any other.
pub data Failure : Type 0 where
  transport_failure bad_delay operation_canceled other_failure : Failure

-- `std::isspace` in the C locale.
abbrev is_space : ℕ → Bool
is_space c = c == b' ' || leb b'\t' c && leb c b'\r'

-- `std::stoi`, where a negative number counts as 0.
unfoldable pub stoi : Bytes → Result Failure ℕ
stoi s = let text = from (λ c. not (is_space c)) s in signed text
  where
    magnitude : ℕ → Bytes → Result Failure ℕ
    magnitude bound t = do
      let digits = until (λ c. not (is_decimal c)) t
      require (not (is_empty digits)) bad_delay
      require (leb (decimal 0 digits) bound) bad_delay
      ok (decimal 0 digits)

    signed : Bytes → Result Failure ℕ
    signed [] = err bad_delay
    signed (c ∷ t) =
        if c == b'-'
        then (magnitude 2_147_483_648 t >>= λ n. ok 0)
        else if c == b'+'
        then magnitude 2_147_483_647 t
        else magnitude 2_147_483_647 (c ∷ t)

-- The delay of the response, if it has one.
unfoldable pub get_response_header_based_delay : RawResponse → Result Failure (Option ℕ)
get_response_header_based_delay response = elim (find (codes "retry-after-ms") response.headers) [
  | some value ↦ (stoi value >>= λ milliseconds. ok (some milliseconds))
  | none ↦ elim (find (codes "x-ms-retry-after-ms") response.headers) [
    | some value ↦ (stoi value >>= λ milliseconds. ok (some milliseconds))
    | none ↦ elim (find (codes "Retry-After") response.headers) [
      | some value ↦ (stoi value >>= λ seconds. ok (some (seconds * 1000)))
      | none ↦ ok none
    ]
  ]
]

-- The factor is 0.8 + rand / RAND_MAX * 0.5, as a fraction: the rounding of `double` is left out. The
-- cast drops the fraction of the product.
unfoldable pub apply_jitter_factor : ℕ → ℕ → ℕ → ℕ
apply_jitter_factor rand_max rand delay = delay * (8 * rand_max + 5 * rand) / (10 * rand_max)

-- `rand` is what `std::rand` yields, at most `rand_max`. A shift by more than 30 would leave the range
-- of an `int`.
unfoldable pub calculate_exponential_delay : ℕ → ℕ → RetryOptions → ℕ → ℕ
calculate_exponential_delay rand_max rand retry_options attempt =
    let exponential_retry_after =
      retry_options.retry_delay * (if leb attempt 30 then 2 ^ attempt else 2_147_483_647) in
    min (apply_jitter_factor rand_max rand exponential_retry_after) retry_options.max_retry_delay

unfoldable pub was_last_attempt : RetryOptions → ℕ → Bool
was_last_attempt retry_options attempt = ltb retry_options.max_retries attempt

-- `none` is the answer no, `some` the delay.
unfoldable pub should_retry_on_transport_failure : ℕ → ℕ → RetryOptions → ℕ → Option ℕ
should_retry_on_transport_failure rand_max rand retry_options attempt =
    if was_last_attempt retry_options attempt
    then none
    else some (calculate_exponential_delay rand_max rand retry_options attempt)

abbrev pub is_among : List ℕ → ℕ → Bool
is_among [] c = false
is_among (x ∷ xs) c = x == c || is_among xs c

unfoldable pub should_retry_on_response :
    ℕ → ℕ → RawResponse → RetryOptions → ℕ → Result Failure (Option ℕ)
should_retry_on_response rand_max rand response retry_options attempt =
    if was_last_attempt retry_options attempt
    then ok none
    else if not (is_among retry_options.status_codes response.status_code)
    then ok none
    else (get_response_header_based_delay response >>= λ (delay : Option ℕ). elim delay [
      | some retry_after ↦ ok (some retry_after)
      | none ↦ ok (some (calculate_exponential_delay rand_max rand retry_options attempt))
    ])

-- What is outside: the next policies, the clock, the random numbers and the context, in the state `W`.
pub record Surroundings (W : Type 0) : Type 0 where
  -- `nextHttpPolicy.Send`, which may change the request.
  pub next : Request → W → Result Failure RawResponse × (Request × W)
  pub sleep : ℕ → W → W
  -- `RAND_MAX` and `std::rand`.
  pub rand_max : ℕ
  pub rand : W → ℕ
  pub is_canceled : W → Bool

-- How `Send` ends, with the attempt that it ends in.
pub record Sent (W : Type 0) : Type 0 where
  pub outcome : Result Failure RawResponse
  pub attempt : ℕ
  pub request : Request
  pub world : W

module _ {W : Type 0} (out : Surroundings W) (retry_options : RetryOptions) where
  -- Whether there will be another attempt, and after what delay, or how `Send` ends.
  unfoldable pub judge : Result Failure RawResponse → ℕ → W → Result (Result Failure RawResponse) ℕ
  judge (ok response) attempt w =
      elim (should_retry_on_response out.rand_max (out.rand w) response retry_options attempt) [
        | err e ↦ err (err e)
        | ok none ↦ err (ok response)
        | ok (some retry_after) ↦ ok retry_after
      ]
  judge (err transport_failure) attempt w =
      elim (should_retry_on_transport_failure out.rand_max (out.rand w) retry_options attempt) [
        | none ↦ err (err transport_failure)
        | some retry_after ↦ ok retry_after
      ]
  judge (err bad_delay) attempt w = err (err bad_delay)
  judge (err operation_canceled) attempt w = err (err operation_canceled)
  judge (err other_failure) attempt w = err (err other_failure)

  -- The body's rewind and the query parameters as before the attempt.
  unfoldable pub restore : List (Bytes × Bytes) → Request → Request
  restore original_query_parameters r = record r {
    url = record r.url { encoded_query_parameters = original_query_parameters };
    body = memory_rewind r.body;
  }

  -- The rest of a round, by what `judge` said of it. `rest` is the next round.
  unfoldable pub finish_round :
      List (Bytes × Bytes)
      → ℕ
      → Request
      → W
      → (Request → W → Option (Sent W))
      → Result (Result Failure RawResponse) ℕ
      → Option (Sent W)
  finish_round original attempt changed w rest (err outcome) =
      some (record { outcome = outcome; attempt = attempt; request = changed; world = w })
  finish_round original attempt changed w rest (ok retry_after) =
      let slept = if ltb 0 retry_after then out.sleep retry_after w else w in
      let restored = restore original changed in
      if out.is_canceled slept
      then some (record {
        outcome = err operation_canceled;
        attempt = attempt;
        request = restored;
        world = slept;
      })
      else rest restored slept

  -- The loop of `Send`.
  unfoldable pub send_loop : ℕ → ℕ → Request → W → Option (Sent W)
  send_loop zero attempt request w = none
  send_loop (suc fuel) attempt request w =
      let tried = start_try request in
      let (result, (changed, w')) = out.next tried w in
      finish_round tried.url.encoded_query_parameters attempt changed w'
        (send_loop fuel (suc attempt)) (judge result attempt w')

  -- `RetryPolicy::Send`, with fuel for the first attempt and each retry.
  unfoldable pub send : Request → W → Option (Sent W)
  send request w = send_loop (suc retry_options.max_retries) 1 request w
