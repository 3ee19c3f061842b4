-- ===== src/Tests/Runs.antt =====
-- Tests of Parallel on concrete inputs, and the examples of its theorems.
use cache_simulator.Tests.Spelling.{codes}
use cache_simulator.Prelude.{ℕ, ◌≤◌, ◌≡◌, refl, List, [], ◌∷◌, some, none, All, ltb, length, arith}
use cache_simulator.Trace.Text.{Text}
use cache_simulator.Parallel.Pool.{ThreadPool, start, Steps}
use cache_simulator.Parallel.Counting.{NoChunk}
use cache_simulator.Parallel.Deadlock.{process_multiple_configs-stuck}
use cache_simulator.Parallel.Chunks.{address_of, partition_trace, CacheSimulator, process_trace}
use cache_simulator.Parallel.Totals.{joined, addresses_of, FitsIn, Counts, process_trace-Counts}

address_test : address_of (codes "w 0x1F") ≡ some 31
unfolding address_of
address_test = refl

comment_test : address_of (codes "# 0x1F") ≡ none
unfolding address_of
comment_test = refl

abbrev trace : List Text
trace = codes "r 10" ∷ codes "# a comment" ∷ codes "w 20" ∷ codes "r 10" ∷ []

partition_test : partition_trace trace 2 ≡ (16 ∷ 32 ∷ []) ∷ (16 ∷ []) ∷ []
unfolding partition_trace address_of
partition_test = refl

-- It hits on the addresses below 20.
abbrev low_only : CacheSimulator ℕ ℕ
low_only = record { create = λ c. c; access = λ s a. (a, ltb a 20); prefetches = λ s. 0 }

process_test :
    process_trace low_only trace 0 2
    ≡ record { total_accesses = 3; hits = 2; misses = 1; prefetches = 0 }
unfolding process_trace address_of
process_test = refl

process_trace-Counts_example :
    (joined (partition_trace trace 2) ≡ addresses_of trace)
    × All (FitsIn 2) (partition_trace trace 2)
    × Counts (process_trace low_only trace 0 2) (length (addresses_of trace))
process_trace-Counts_example = process_trace-Counts low_only trace 0 2

-- Two workers, three configurations, and one chunk for each.
abbrev one_chunk : ℕ → ℕ
one_chunk c = 1

abbrev two_workers : ThreadPool
two_workers = start one_chunk 2 (0 ∷ 1 ∷ 2 ∷ [])

abbrev three_configs : List ℕ
three_configs = 0 ∷ 1 ∷ 2 ∷ []

enough_configs : 2 ≤ length three_configs
enough_configs = omega arith

each_has_one : (c : ℕ) → 1 ≤ one_chunk c
each_has_one c = omega arith

process_multiple_configs-stuck_example :
    (s : ThreadPool) × Steps one_chunk two_workers s
    × ((t : ThreadPool) → Steps one_chunk s t → (t.finished ≡ []) × NoChunk t.workers)
process_multiple_configs-stuck_example =
    process_multiple_configs-stuck one_chunk 2 three_configs enough_configs each_has_one
