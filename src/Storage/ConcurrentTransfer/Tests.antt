-- ===== src/Storage/ConcurrentTransfer/Tests.antt =====
-- The theorems on the threads and the ranges, at an interleaving of two threads on three chunks.
use azure_sdk_for_cpp.Base.{
  ℕ, ◌-◌, ◌^◌, ◌+◌, ◌/◌, ◌≡◌, refl, ◌≤◌, ◌<◌, ◌↔◌, Bool, false, List, [], ◌∷◌, arith,
}
use azure_sdk_for_cpp.Storage.ConcurrentTransfer.{
  fetch_sub, step_thread, step, run, start, num_chunks, chunk_offset, chunk_length,
}
use azure_sdk_for_cpp.Storage.ConcurrentTransfer.Threads.{
  working, sum, count, run-num_working_threads,
}
use azure_sdk_for_cpp.Storage.ConcurrentTransfer.Once.{run-exactly_once}
use azure_sdk_for_cpp.Storage.ConcurrentTransfer.Ranges.{chunk-partition}

abbrev a : ℕ × Bool
a = (0, false)

abbrev b : ℕ × Bool
b = (1, false)

-- Both threads fetch before either tests.
abbrev mixed : List (ℕ × Bool)
mixed = a ∷ b ∷ a ∷ a ∷ b ∷ b ∷ a ∷ b ∷ b ∷ a ∷ a ∷ a ∷ a ∷ a ∷ b ∷ []

all_three : (run 3 mixed (start 2)).0.called ≡ 2 ∷ 1 ∷ 0 ∷ []
unfolding run step step_thread start
all_three = refl

run-num_working_threads_example :
    (run 3 mixed (start 2)).0.num_working_threads ≡ sum working (run 3 mixed (start 2)).1
run-num_working_threads_example = run-num_working_threads 3 1 mixed (omega arith)

run-exactly_once_example : count 1 (run 3 mixed (start 2)).0.called ≡ 1
unfolding run step step_thread start
run-exactly_once_example = run-exactly_once 3 1 1 mixed (omega arith) refl refl

chunk-partition_example :
    ((0 < chunk_length 10 4 2) × (chunk_offset 100 4 2 + chunk_length 10 4 2 ≤ 100 + 10))
    × (9 < 10
        → (9 / 4 < num_chunks 10 4)
          × (((chunk_offset 100 4 2 ≤ 100 + 9)
                × (100 + 9 < chunk_offset 100 4 2 + chunk_length 10 4 2))
              ↔ (2 ≡ 9 / 4)))
unfolding num_chunks
chunk-partition_example = chunk-partition 100 10 4 2 9 (omega arith) (omega arith)

-- With a concurrency of 0 the calling thread counts down to -1, and the code aborts.
below_zero :
    (run 0 ((0, false) ∷ (0, false) ∷ (0, false) ∷ []) (start 0)).0.num_working_threads ≡ 2 ^ 32 - 1
unfolding run step step_thread start fetch_sub
below_zero = refl
