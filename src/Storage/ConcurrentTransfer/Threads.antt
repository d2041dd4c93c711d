-- ===== src/Storage/ConcurrentTransfer/Threads.antt =====
-- What every interleaving of the threads of concurrent_transfer.hpp keeps.
use azure_sdk_for_cpp.Base.{
  ℕ, zero, suc, ◌+◌, ◌-◌, ◌^◌, ◌<◌, ap, ◌∙◌, ◌≡◌, refl, ◌≤◌, Bool, List, [], ◌∷◌, ltb, ◌==◌,
  if◌then◌else◌, arith,
}
use azure_sdk_for_cpp.Storage.ConcurrentTransfer.{
  Phase, fetching, testing, transferring, handling, leaving, throwing, returned, thrown, Shared,
  step_thread, step, run, fetch_sub, async_threads, threads, start,
}

-- 1 for a thread that has not ended.
abbrev pub working : Phase → ℕ
working fetching = 1
working (testing i) = 1
working (transferring i) = 1
working handling = 1
working leaving = 1
working throwing = 1
working returned = 0
working thrown = 0

-- 1 for a thread that holds the chunk and has not transferred it.
abbrev pub holding : ℕ → Phase → ℕ
holding c (testing i) = if i == c then 1 else 0
holding c (transferring i) = if i == c then 1 else 0
holding c fetching = 0
holding c handling = 0
holding c leaving = 0
holding c throwing = 0
holding c returned = 0
holding c thrown = 0

abbrev pub sum : (Phase → ℕ) → List Phase → ℕ
sum f [] = 0
sum f (p ∷ ps) = f p + sum f ps

-- How often the transfer function was called for the chunk.
abbrev pub count : ℕ → List ℕ → ℕ
count c [] = 0
count c (i ∷ is) = (if i == c then 1 else 0) + count c is

fetch_sub-suc : (n : ℕ) → n < 2 ^ 31 → fetch_sub (suc n) ≡ n
unfolding fetch_sub
fetch_sub-suc n p = omega arith

-- The counter and `others` working threads elsewhere; the number of threads stays below 2 ^ 31.
step-working :
    (chunks i : ℕ) (throws : Bool) (sh : Shared) (ps : List Phase) (others : ℕ)
    → sum working ps + others < 2 ^ 31
    → sh.num_working_threads ≡ sum working ps + others
    → ((step chunks i throws sh ps).0.num_working_threads
        ≡ sum working (step chunks i throws sh ps).1 + others)
      × (sum working (step chunks i throws sh ps).1 ≤ sum working ps)
unfolding step step_thread
step-working chunks i throws sh [] others b e = (e, omega arith)
step-working chunks zero throws sh (fetching ∷ ps) others b e = (e, omega arith)
step-working chunks zero throws sh (testing c ∷ ps) others b e = (ground arith, ground arith)
step-working chunks zero throws sh (transferring c ∷ ps) others b e = (ground arith, ground arith)
step-working chunks zero throws sh (handling ∷ ps) others b e = (ground arith, ground arith)
step-working chunks zero throws sh (leaving ∷ ps) others b e =
    let rest : sh.num_working_threads ≡ suc (sum working ps + others) = omega arith in
    let less = fetch_sub-suc (sum working ps + others) (omega arith) in
    (ap fetch_sub rest ∙ less ∙ omega arith, omega arith)
step-working chunks zero throws sh (throwing ∷ ps) others b e =
    let rest : sh.num_working_threads ≡ suc (sum working ps + others) = omega arith in
    let less = fetch_sub-suc (sum working ps + others) (omega arith) in
    (ap fetch_sub rest ∙ less ∙ omega arith, omega arith)
step-working chunks zero throws sh (returned ∷ ps) others b e = (e, omega arith)
step-working chunks zero throws sh (thrown ∷ ps) others b e = (e, omega arith)
step-working chunks (suc i) throws sh (p ∷ ps) others b e =
    let rest =
      step-working chunks i throws sh ps (working p + others) (omega arith) (omega arith) in
    (omega (arith, rest.0), omega (arith, rest.1))

run-working :
    (chunks : ℕ) (schedule : List (ℕ × Bool)) (sh : Shared) (ps : List Phase)
    → sum working ps < 2 ^ 31
    → sh.num_working_threads ≡ sum working ps
    → (run chunks schedule (sh, ps)).0.num_working_threads
      ≡ sum working (run chunks schedule (sh, ps)).1
unfolding run
run-working chunks [] sh ps b e = e
run-working chunks ((i, throws) ∷ schedule) sh ps b e =
    let (same, less) = step-working chunks i throws sh ps 0 (omega arith) (omega arith) in
    run-working chunks schedule (step chunks i throws sh ps).0 (step chunks i throws sh ps).1
      (omega arith) (omega arith)

sum-async_threads : (n : ℕ) → sum working (async_threads n) ≡ n
sum-async_threads zero = refl
sum-async_threads (suc n) = omega (arith, sum-async_threads n)

-- With a concurrency from 1 to 2 ^ 31 - 1, the counter of the working threads counts the threads that
-- have not ended, however the steps are interleaved and whichever transfers throw; so when all have ended
-- it is zero, and the code does not abort.
pub run-num_working_threads :
    (chunks others : ℕ) (schedule : List (ℕ × Bool))
    → suc others < 2 ^ 31
    → (run chunks schedule (start (suc others))).0.num_working_threads
      ≡ sum working (run chunks schedule (start (suc others))).1
unfolding start
run-num_working_threads chunks others schedule b =
    let all = sum-async_threads (suc others - 1) in
    run-working chunks schedule (start (suc others)).0 (threads (suc others)) (omega arith)
      (omega arith)

abbrev pub below : ℕ → ℕ → ℕ
below c n = if ltb c n then 1 else 0

-- The chunk is called for or held at most once, and only if it was fetched.
step-count :
    (chunks i c : ℕ) (throws : Bool) (sh : Shared) (ps : List Phase) (others : ℕ)
    → count c sh.called + (sum (holding c) ps + others) ≤ below c sh.next_chunk_id
    → count c (step chunks i throws sh ps).0.called
        + (sum (holding c) (step chunks i throws sh ps).1 + others)
      ≤ below c (step chunks i throws sh ps).0.next_chunk_id
unfolding step step_thread
step-count chunks i c throws sh [] others e = e
step-count chunks zero c throws sh (fetching ∷ ps) others e = ground arith
step-count chunks zero c throws sh (testing k ∷ ps) others e = ground arith
step-count chunks zero c throws sh (transferring k ∷ ps) others e = ground arith
step-count chunks zero c throws sh (handling ∷ ps) others e = ground arith
step-count chunks zero c throws sh (leaving ∷ ps) others e = e
step-count chunks zero c throws sh (throwing ∷ ps) others e = e
step-count chunks zero c throws sh (returned ∷ ps) others e = e
step-count chunks zero c throws sh (thrown ∷ ps) others e = e
step-count chunks (suc i) c throws sh (p ∷ ps) others e =
    omega (arith, step-count chunks i c throws sh ps (holding c p + others) (omega arith))

sum-holding-async_threads : (c n : ℕ) → sum (holding c) (async_threads n) ≡ 0
sum-holding-async_threads c zero = refl
sum-holding-async_threads c (suc n) = omega (arith, sum-holding-async_threads c n)

pub sum-holding-threads : (c concurrency : ℕ) → sum (holding c) (threads concurrency) ≡ 0
sum-holding-threads c concurrency = omega (arith, sum-holding-async_threads c (concurrency - 1))

run-count :
    (chunks c : ℕ) (schedule : List (ℕ × Bool)) (sh : Shared) (ps : List Phase)
    → count c sh.called + sum (holding c) ps ≤ below c sh.next_chunk_id
    → count c (run chunks schedule (sh, ps)).0.called ≤ 1
unfolding run
run-count chunks c [] sh ps e = ground arith
run-count chunks c ((i, throws) ∷ schedule) sh ps e =
    run-count chunks c schedule (step chunks i throws sh ps).0 (step chunks i throws sh ps).1
      (omega (arith, step-count chunks i c throws sh ps 0 (omega arith)))

-- However the steps are interleaved, no chunk is transferred twice.
pub run-at_most_once :
    (chunks concurrency c : ℕ) (schedule : List (ℕ × Bool))
    → count c (run chunks schedule (start concurrency)).0.called ≤ 1
unfolding start
run-at_most_once chunks concurrency c schedule =
    run-count chunks c schedule (start concurrency).0 (threads concurrency)
      (omega (arith, sum-holding-threads c concurrency))
