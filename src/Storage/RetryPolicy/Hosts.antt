-- ===== src/Storage/RetryPolicy/Hosts.antt =====
-- The attempts of storage_retry_policy.cpp and the hosts that they are made with.
use azure_sdk_for_cpp.Base.{
  ℕ, zero, suc, ◌≡◌, refl, ◌≤◌, ◌⊎◌, inl, inr, Bool, true, false, not, ◌&&◌, ◌||◌, List, [], ◌∷◌,
  ◌==◌, if◌then◌else◌, Bytes, Result, ok, err, length, arith, Bool-cases,
}
use azure_sdk_for_cpp.Http.Streams.{memory_rewind}
use azure_sdk_for_cpp.Http.Request.{Request}
use azure_sdk_for_cpp.Http.Response.{RawResponse}
use azure_sdk_for_cpp.Http.RetryPolicy.{is_among}
use azure_sdk_for_cpp.Storage.RetryPolicy.{
  StorageRetryOptions, Failure, request_failed, operation_canceled, other_failure, Surroundings,
  Sent, may_use_secondary, set_host, retry_delay_ms, Verdict, stop, again, judge, switch_host,
  finish_attempt, send_loop, send,
}

-- No delay is longer than the longest one.
pub retry_delay_ms-le :
    (jitter : ℕ → ℕ) (o : StorageRetryOptions) (i : ℕ)
    → retry_delay_ms jitter o i ≤ o.max_retry_delay
unfolding retry_delay_ms
retry_delay_ms-le jitter o i = ground arith

-- The primary host, or the secondary one if it may be used.
abbrev pub IsHost : Bytes → Bytes → Bool → Bytes → Type 0
IsHost primary secondary considered host =
    (host ≡ primary) ⊎ ((considered ≡ true) × (host ≡ secondary))

abbrev pub AreHosts : Bytes → Bytes → Bool → List Bytes → Type 0
AreHosts primary secondary considered [] = Unit {0}
AreHosts primary secondary considered (h ∷ hs) =
    IsHost primary secondary considered h × AreHosts primary secondary considered hs

module _ {W : Type 0} (out : Surroundings W) (o : StorageRetryOptions) (primary : Bytes) where
  abbrev Good : Bool → ℕ → Sent W → Type 0
  Good considered left s =
      AreHosts primary o.secondary_host_for_retry_reads considered s.hosts
      × (length s.hosts ≤ suc left)

  weaken :
      (a b : Bool) (hs : List Bytes)
      → (a ≡ true → b ≡ true)
      → AreHosts primary o.secondary_host_for_retry_reads a hs
      → AreHosts primary o.secondary_host_for_retry_reads b hs
  weaken a b [] f h = tt
  weaken a b (x ∷ hs) f (inl e, h) = (inl e, weaken a b hs f h)
  weaken a b (x ∷ hs) f (inr (c, e), h) = (inr (f c, e), weaken a b hs f h)

  -- The verdict never brings the secondary host back.
  abbrev Narrows : Bool → Verdict → Type 0
  Narrows considered stop = Unit {0}
  Narrows considered (again consider) = consider ≡ true → considered ≡ true

  judge-Narrows :
      (last considered is_using : Bool) (result : Result Failure RawResponse)
      → Narrows considered (judge out o primary last considered is_using result)
  unfolding judge
  judge-Narrows last considered is_using (ok response) =
      let discard = is_using && (response.status_code == 404 || response.status_code == 412) in
      elim (Bool-cases (discard || is_among o.status_codes response.status_code)) [
        | inl e ↦ rw (judge, e) (and-left considered (not discard))
        | inr e ↦ rw (judge, e) tt
      ]
    where
      and-left : (a b : Bool) → (a && b) ≡ true → a ≡ true
      and-left true b e = refl
      and-left false b e = e
  judge-Narrows true considered is_using (err request_failed) = tt
  judge-Narrows false considered is_using (err request_failed) = λ e. e
  judge-Narrows last considered is_using (err operation_canceled) = tt
  judge-Narrows last considered is_using (err other_failure) = tt

  switch_host-IsHost :
      (considered is_using : Bool) (r : Request)
      → IsHost primary o.secondary_host_for_retry_reads considered
          (switch_host out o primary considered is_using r).1.url.host
  unfolding switch_host set_host
  switch_host-IsHost true true r = inl refl
  switch_host-IsHost true false r = inr (refl, refl)
  switch_host-IsHost false is_using r = inl refl

  finish_attempt-Good :
      (considered : Bool) (left i : ℕ) (host : Bytes) (is_using : Bool)
      (result : Result Failure RawResponse) (changed : Request) (w : W)
      (next_attempt : Bool → Bool → Request → W → Sent W) (v : Verdict)
      → IsHost primary o.secondary_host_for_retry_reads considered host
      → Narrows considered v
      → ((c u : Bool) (r : Request) (w' : W)
          → IsHost primary o.secondary_host_for_retry_reads c r.url.host
          → Good c left (next_attempt c u r w'))
      → Good considered
          (suc left)
          (finish_attempt out o primary host i is_using result changed w next_attempt v)
  unfolding finish_attempt
  finish_attempt-Good considered left i host is_using result changed w next_attempt stop h n k =
      ((h, tt), omega arith)
  finish_attempt-Good considered left i host is_using result changed w next_attempt (again c) h n
        k =
      elim (Bool-cases (out.is_canceled w)) [
        | inl e ↦ rw e ((h, tt), omega arith)
        | inr e ↦
            let delay = retry_delay_ms (out.jitter w) o i in
            let slept = if delay == 0 then w else out.sleep delay w in
            let rewound : Request = record changed { body = memory_rewind changed.body } in
            let switched = switch_host out o primary c is_using rewound in
            let good = k c switched.0 switched.1 slept (switch_host-IsHost c is_using rewound) in
            rw e (
              (h, weaken c considered (next_attempt c switched.0 switched.1 slept).hosts n good.0),
              omega (arith, good.1),
            )
      ]

  send_loop-Good :
      (left i : ℕ) (considered is_using : Bool) (r : Request) (w : W)
      → IsHost primary o.secondary_host_for_retry_reads considered r.url.host
      → Good considered left (send_loop out o primary left i considered is_using r w)
  unfolding send_loop
  send_loop-Good zero i considered is_using r w h = ((h, tt), omega arith)
  send_loop-Good (suc left) i considered is_using r w h =
      let (result, (changed, w')) = out.next r w in
      finish_attempt-Good considered left i r.url.host is_using result changed w'
        (send_loop out o primary left (suc i))
        (judge out o primary false considered is_using result) h
        (judge-Narrows false considered is_using result)
        (λ c u r' v. send_loop-Good left (suc i) c u r' v)

-- Whatever the service answers, `Send` makes at most one attempt and the retries, each with the host of
-- the request or, only if the request is a GET or a HEAD and the options name one, with the secondary
-- host.
pub send-AreHosts :
    {W : Type 0} (out : Surroundings W) (o : StorageRetryOptions) (r : Request) (w : W)
    → AreHosts r.url.host o.secondary_host_for_retry_reads
        (may_use_secondary o r)
        (send out o r w).hosts
      × (length (send out o r w).hosts ≤ suc o.max_retries)
unfolding send
send-AreHosts out o r w =
    send_loop-Good out o r.url.host o.max_retries 0 (may_use_secondary o r) false r w (inl refl)
