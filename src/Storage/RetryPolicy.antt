-- ===== src/Storage/RetryPolicy.antt =====
-- sdk/storage/azure-storage-common/src/storage_retry_policy.cpp. The attempts that are left count down
-- where the code counts them up; delays are numbers of milliseconds.
pub mod Hosts
mod Tests
use azure_sdk_for_cpp.Base.{
  ℕ, zero, suc, ◌+◌, ◌-◌, ◌*◌, ◌^◌, Bool, true, false, not, ◌&&◌, ◌||◌, List, [], ◌∷◌, ltb, ◌==◌,
  if◌then◌else◌, Bytes, is_empty, Result, ok, err,
}
use azure_sdk_for_cpp.Http.Url.{Url}
use azure_sdk_for_cpp.Http.Streams.{memory_rewind}
use azure_sdk_for_cpp.Http.Request.{Request, HttpMethod, get, head, post, put, delete, patch}
use azure_sdk_for_cpp.Http.Response.{RawResponse}
use azure_sdk_for_cpp.Http.RetryPolicy.{is_among}

pub record StorageRetryOptions : Type 0 where
  pub max_retries : ℕ
  pub retry_delay : ℕ
  pub max_retry_delay : ℕ
  pub status_codes : List ℕ
  pub secondary_host_for_retry_reads : Bytes

-- A `RequestFailedException`, the error of a canceled context, and any other exception.
pub data Failure : Type 0 where
  request_failed operation_canceled other_failure : Failure

-- What is outside: the next policies, the clock, the random numbers and the context.
pub record Surroundings (W : Type 0) : Type 0 where
  pub next : Request → W → Result Failure RawResponse × (Request × W)
  pub sleep : ℕ → W → W
  pub jitter : W → ℕ → ℕ
  pub is_canceled : W → Bool

-- How `Send` ends, and the hosts of its attempts.
pub record Sent (W : Type 0) : Type 0 where
  pub outcome : Result Failure RawResponse
  pub hosts : List Bytes
  pub request : Request
  pub world : W

unfoldable pub is_read : HttpMethod → Bool
is_read get = true
is_read head = true
is_read post = false
is_read put = false
is_read delete = false
is_read patch = false

-- The first value of `considerSecondary`.
unfoldable pub may_use_secondary : StorageRetryOptions → Request → Bool
may_use_secondary o r = is_read r.method && not (is_empty o.secondary_host_for_retry_reads)

unfoldable pub set_host : Bytes → Request → Request
set_host host r = record r { url = record r.url { host = host } }

-- The delay after attempt `i`. The test of the quotient is true where the product leaves 63 bits, or
-- has the sign bit of the factor.
unfoldable pub retry_delay_ms : (ℕ → ℕ) → StorageRetryOptions → ℕ → ℕ
retry_delay_ms jitter o i =
    let product = o.retry_delay * 2 ^ i in
    if ltb i 64
    then (if ltb product (2 ^ 63)
        then (if ltb o.max_retry_delay (jitter product) then o.max_retry_delay else jitter product)
        else o.max_retry_delay)
    else o.max_retry_delay

-- What an attempt says of the next one: whether there is one, and whether the secondary host is still
-- to be considered.
pub data Verdict : Type 0 where
  stop : Verdict
  again : Bool → Verdict

module _ {W : Type 0} (out : Surroundings W) (o : StorageRetryOptions) (primary_host : Bytes) where
  -- The `try` block and its handler. The first argument is `lastAttempt`.
  unfoldable pub judge : Bool → Bool → Bool → Result Failure RawResponse → Verdict
  judge last consider_secondary is_using_secondary (ok response) =
      let discard =
        is_using_secondary && (response.status_code == 404 || response.status_code == 412) in
      if discard || is_among o.status_codes response.status_code
      then again (consider_secondary && not discard)
      else stop
  judge last consider_secondary is_using_secondary (err request_failed) =
      if last then stop else again consider_secondary
  judge last consider_secondary is_using_secondary (err operation_canceled) = stop
  judge last consider_secondary is_using_secondary (err other_failure) = stop

  -- `switchHost`
  unfoldable pub switch_host : Bool → Bool → Request → Bool × Request
  switch_host consider_secondary is_using_secondary r =
      let is_using = if consider_secondary then not is_using_secondary else false in
      (is_using, set_host (if is_using then o.secondary_host_for_retry_reads else primary_host) r)

  -- The rest of an attempt that is not the last one, by the verdict. `next_attempt` is the next one.
  unfoldable pub finish_attempt :
      Bytes
      → ℕ
      → Bool
      → Result Failure RawResponse
      → Request
      → W
      → (Bool → Bool → Request → W → Sent W)
      → Verdict
      → Sent W
  finish_attempt host i is_using_secondary result changed w next_attempt stop = record {
    outcome = result;
    hosts = host ∷ [];
    request = changed;
    world = w;
  }
  finish_attempt host i is_using_secondary result changed w next_attempt (again consider) =
      let rewound : Request = record changed { body = memory_rewind changed.body } in
      let (is_using, switched) = switch_host consider is_using_secondary rewound in
      let delay = retry_delay_ms (out.jitter w) o i in
      let slept = if delay == 0 then w else out.sleep delay w in
      let rest = next_attempt consider is_using switched slept in
      if out.is_canceled w
      then record {
        outcome = err operation_canceled;
        hosts = host ∷ [];
        request = switched;
        world = w;
      }
      else record rest { hosts = host ∷ rest.hosts }

  -- The loop of `Send` with some attempts left after this one.
  unfoldable pub send_loop : ℕ → ℕ → Bool → Bool → Request → W → Sent W
  send_loop zero i consider_secondary is_using_secondary r w =
      let (result, (changed, w')) = out.next r w in
      record { outcome = result; hosts = r.url.host ∷ []; request = changed; world = w' }
  send_loop (suc left) i consider_secondary is_using_secondary r w =
      let (result, (changed, w')) = out.next r w in
      finish_attempt r.url.host i is_using_secondary result changed w' (send_loop left (suc i))
        (judge false consider_secondary is_using_secondary result)

-- `StorageRetryPolicy::Send`
unfoldable pub send : {W : Type 0} → Surroundings W → StorageRetryOptions → Request → W → Sent W
send out o r w = send_loop out o r.url.host o.max_retries 0 (may_use_secondary o r) false r w
