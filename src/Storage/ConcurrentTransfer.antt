-- ===== src/Storage/ConcurrentTransfer.antt =====
-- sdk/storage/azure-storage-common/inc/azure/storage/common/concurrent_transfer.hpp. A step is one
-- access to an atomic variable or one call of the transfer function, of any of the threads, so that a
-- list of steps is an interleaving. Chunk ids are below the range of an `int`.
pub mod Ranges
pub mod Threads
pub mod Once
mod Tests
use azure_sdk_for_cpp.Base.{
  ℕ, zero, suc, ◌+◌, ◌-◌, ◌*◌, ◌/◌, ◌%◌, ◌^◌, min, Bool, true, false, ◌||◌, List, [], ◌∷◌, leb,
  if◌then◌else◌,
}

unfoldable pub num_chunks : ℕ → ℕ → ℕ
num_chunks total chunk_size = (total + chunk_size - 1) / chunk_size

unfoldable pub chunk_offset : ℕ → ℕ → ℕ → ℕ
chunk_offset offset chunk_size chunk_id = offset + chunk_size * chunk_id

unfoldable pub chunk_length : ℕ → ℕ → ℕ → ℕ
chunk_length total chunk_size chunk_id = min (total - chunk_size * chunk_id) chunk_size

-- Where a thread is in `threadFunc`: before `fetch_add`, before the test, before the call, in the
-- handler, before the last `fetch_sub`, before the one of the handler, and how it ended.
pub data Phase : Type 0 where
  fetching : Phase
  testing transferring : ℕ → Phase
  handling leaving throwing returned thrown : Phase

-- The atomic variables, and the chunks for which the transfer function was called.
pub record Shared : Type 0 where
  pub num_working_threads : ℕ
  pub next_chunk_id : ℕ
  pub failed : Bool
  pub called : List ℕ

-- `fetch_sub(1)` on an `int`, which is its pattern of 32 bits.
unfoldable pub fetch_sub : ℕ → ℕ
fetch_sub n = (n + (2 ^ 32 - 1)) % 2 ^ 32

-- A step of a thread. `throws` tells whether the transfer function throws.
unfoldable pub step_thread : ℕ → Bool → Shared → Phase → Shared × Phase
step_thread chunks throws sh fetching =
    (record sh { next_chunk_id = suc sh.next_chunk_id }, testing sh.next_chunk_id)
step_thread chunks throws sh (testing chunk_id) =
    if leb chunks chunk_id || sh.failed then (sh, leaving) else (sh, transferring chunk_id)
step_thread chunks throws sh (transferring chunk_id) =
    (record sh { called = chunk_id ∷ sh.called }, (if throws then handling else fetching))
step_thread chunks throws sh handling =
    (record sh { failed = true }, (if sh.failed then fetching else throwing))
step_thread chunks throws sh leaving =
    (record sh { num_working_threads = fetch_sub sh.num_working_threads }, returned)
step_thread chunks throws sh throwing =
    (record sh { num_working_threads = fetch_sub sh.num_working_threads }, thrown)
step_thread chunks throws sh returned = (sh, returned)
step_thread chunks throws sh thrown = (sh, thrown)

-- A step of one of the threads.
unfoldable pub step : ℕ → ℕ → Bool → Shared → List Phase → Shared × List Phase
unfolding step_thread
step chunks i throws sh [] = (sh, [])
step chunks zero throws sh (p ∷ ps) =
    let (sh', p') = step_thread chunks throws sh p in (sh', p' ∷ ps)
step chunks (suc i) throws sh (p ∷ ps) =
    let (sh', ps') = step chunks i throws sh ps in (sh', p ∷ ps')

-- An interleaving.
unfoldable pub run : ℕ → List (ℕ × Bool) → Shared × List Phase → Shared × List Phase
run chunks [] state = state
run chunks ((i, throws) ∷ schedule) state =
    run chunks schedule (step chunks i throws state.0 state.1)

-- The loop that starts threads.
abbrev pub async_threads : ℕ → List Phase
async_threads zero = []
async_threads (suc n) = fetching ∷ async_threads n

-- The calling thread always runs `threadFunc`, and the loop starts one less than the concurrency.
abbrev pub threads : ℕ → List Phase
threads concurrency = fetching ∷ async_threads (concurrency - 1)

-- As `ConcurrentTransfer` starts them.
unfoldable pub start : ℕ → Shared × List Phase
start concurrency = (
  record { num_working_threads = concurrency; next_chunk_id = 0; failed = false; called = [] },
  threads concurrency,
)
