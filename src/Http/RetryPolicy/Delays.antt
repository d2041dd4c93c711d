-- ===== src/Http/RetryPolicy/Delays.antt =====
-- The delays of retry_policy.cpp: their bounds, and the header that is never found.
use azure_sdk_for_cpp.Base.{
  ℕ, ◌*◌, ◌/◌, ◌^◌, min, ◌≡◌, refl, ◌≤◌, ◌<◌, ◌+◌, true, none, leb, codes, ok, arith,
}
use native.Mathlib.Nat.{mul-le-mul_left, mul-le-mul_right, le-div_iff_mul-le, div-lt_iff_lt-mul}
use azure_sdk_for_cpp.Strings.{IsLower}
use azure_sdk_for_cpp.Dict.{find}
use azure_sdk_for_cpp.Http.Headers.Lines.{AreLower, find-upper}
use azure_sdk_for_cpp.Http.Response.{RawResponse}
use azure_sdk_for_cpp.Http.RetryPolicy.{
  RetryOptions, apply_jitter_factor, calculate_exponential_delay, get_response_header_based_delay,
}

apply_jitter_factor-bounds :
    (rand_max rand delay : ℕ)
    → 0 < rand_max
    → rand ≤ rand_max
    → (8 * delay / 10 ≤ apply_jitter_factor rand_max rand delay)
      × (apply_jitter_factor rand_max rand delay ≤ 13 * delay / 10)
unfolding apply_jitter_factor
apply_jitter_factor-bounds rand_max rand delay p le =
    let positive : 0 < 10 * rand_max = omega arith in
    let drawn : delay * rand ≤ delay * rand_max = mul-le-mul_left delay le in
    let floor : 8 * delay / 10 * 10 ≤ 8 * delay = omega arith in
    let ceiling : 13 * delay + 1 ≤ (13 * delay / 10 + 1) * 10 = omega arith in
    let below : 8 * delay / 10 * 10 * rand_max ≤ 8 * delay * rand_max =
      mul-le-mul_right rand_max floor in
    let above : (13 * delay + 1) * rand_max ≤ (13 * delay / 10 + 1) * 10 * rand_max =
      mul-le-mul_right rand_max ceiling in
    let low : 8 * delay / 10 * (10 * rand_max) ≤ delay * (8 * rand_max + 5 * rand) = omega arith in
    let high : delay * (8 * rand_max + 5 * rand) < (13 * delay / 10 + 1) * (10 * rand_max) =
      omega arith in
    let upper = (div-lt_iff_lt-mul positive).1 high in
    ((le-div_iff_mul-le positive).1 low, omega arith)

-- In the first thirty attempts the delay is within 0.8 and 1.3 times the base delay times two to the
-- power of the attempt, where that does not exceed the longest delay, which it never exceeds, whatever
-- number from 0 to RAND_MAX, which is positive, is drawn.
pub calculate_exponential_delay-bounds :
    (rand_max rand : ℕ) (retry_options : RetryOptions) (attempt : ℕ)
    → 0 < rand_max
    → rand ≤ rand_max
    → attempt ≤ 30
    → (min (8 * (retry_options.retry_delay * 2 ^ attempt) / 10) retry_options.max_retry_delay
        ≤ calculate_exponential_delay rand_max rand retry_options attempt)
      × ((calculate_exponential_delay rand_max rand retry_options attempt
            ≤ 13 * (retry_options.retry_delay * 2 ^ attempt) / 10)
          × (calculate_exponential_delay rand_max rand retry_options attempt
              ≤ retry_options.max_retry_delay))
unfolding calculate_exponential_delay
calculate_exponential_delay-bounds rand_max rand retry_options attempt p r le =
    let e : leb attempt 30 ≡ true = ground arith in
    let (low, high) =
      apply_jitter_factor-bounds rand_max rand (retry_options.retry_delay * 2 ^ attempt) p r in
    rw e (omega arith, (omega arith, omega arith))

retry_after_upper : ¬ IsLower (codes "Retry-After")
retry_after_upper h = let e = h.0 in cc

-- The headers of a response have names in lower case, so its `Retry-After` is never found: without
-- the two headers in milliseconds there is no delay from the response.
pub get_response_header_based_delay-none :
    (response : RawResponse)
    → AreLower response.headers
    → find (codes "retry-after-ms") response.headers ≡ none
    → find (codes "x-ms-retry-after-ms") response.headers ≡ none
    → get_response_header_based_delay response ≡ ok none
unfolding get_response_header_based_delay
get_response_header_based_delay-none response l e f =
    let g = find-upper (codes "Retry-After") response.headers l retry_after_upper in
    rw (get_response_header_based_delay, e, f, g) refl
