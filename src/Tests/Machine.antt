-- ===== src/Tests/Machine.antt =====
-- The processors, the barrier and the memory pool on small runs.
use cache_simulator.Prelude.{
  ℕ, ◌≤◌, ◌<◌, ◌⊎◌, ◌≡◌, ◌≢◌, refl, arith, true, false, [], ◌∷◌, some, zero, suc, subst, get_elem?,
  contains,
}
use cache_simulator.Directory.State as Directory
use cache_simulator.Directory.State.{or_new}
use cache_simulator.Processor.Core as Core
use cache_simulator.Processor.System.{MultiProcessorSystem, process_access, get_processor}
use cache_simulator.Processor.Soundness.{SystemIsSound, process_access-SystemIsSound}
use cache_simulator.Processor.Barrier.{
  BarrierState, waiting, returned, move, arrive, arrival, init, Reach, here, next,
  global_barrier-waiting,
}
use cache_simulator.MemoryPool as Pools
use cache_simulator.MemoryPool.{
  MemoryPool, Pointer, allocate, reset, IsValid, IsAllocated, IsOversized, allocate-IsAllocated,
  create-allocate,
}
use cache_simulator.Cache.Shape.{WellFormed}
use cache_simulator.Processor.Broadcast.{
  broadcast_invalidate, Every, IsInvalidated, broadcast_invalidate-IsInvalidated,
}
use cache_simulator.Tests.Caches.{small, small-WellFormed, warmed, warmed-WellFormed}

abbrev two_cores : MultiProcessorSystem
two_cores = record {
  processors = Core.create 0 small ∷ Core.create 1 small ∷ [];
  world = record { controller = Directory.create 2 10; clock = 0 };
  system_cycles = 0;
  coherence_messages = 0;
}

two_cores-SystemIsSound : SystemIsSound two_cores
unfolding Core.create Directory.create
two_cores-SystemIsSound = record {
  cores = (
    record { well_formed = small-WellFormed; numbered = omega arith; answered = refl },
    (record { well_formed = small-WellFormed; numbered = omega arith; answered = refl }, tt),
  );
  consistent = λ a. (refl, refl);
}

process_access-SystemIsSound_example :
    (s : MultiProcessorSystem) × (latency : ℕ) × (process_access two_cores 1 64 true
      ≡ some (s, latency))
    × SystemIsSound s
    × ((j : ℕ) → 1 ≢ j → get_processor s j ≡ get_processor two_cores j)
process_access-SystemIsSound_example =
    process_access-SystemIsSound two_cores 1 64 true (omega arith) two_cores-SystemIsSound

-- Both caches hold a written copy of the block at 100.
abbrev both_written : MultiProcessorSystem
both_written = record two_cores { processors = Core.create 0 warmed ∷ Core.create 1 warmed ∷ [] }

both_written-WellFormed : (j : ℕ) → Every (λ c. WellFormed c.l1_cache) both_written j
unfolding Core.create
both_written-WellFormed zero c e =
    let same : Core.create 0 warmed ≡ c = cc in
    subst (λ d. WellFormed d.l1_cache) same warmed-WellFormed
both_written-WellFormed (suc zero) c e =
    let same : Core.create 1 warmed ≡ c = cc in
    subst (λ d. WellFormed d.l1_cache) same warmed-WellFormed
both_written-WellFormed (suc (suc j)) c e = absurd (cc)

broadcast_invalidate-IsInvalidated_example :
    Every (λ c. WellFormed c.l1_cache) (broadcast_invalidate both_written 100 (1 ∷ [])) 1
    × (contains 1 (1 ∷ []) ≡ true
        → Every (IsInvalidated 100) (broadcast_invalidate both_written 100 (1 ∷ [])) 1)
    × (contains 1 (1 ∷ []) ≡ false
        → get_elem? (broadcast_invalidate both_written 100 (1 ∷ [])).processors 1
          ≡ get_elem? both_written.processors 1)
broadcast_invalidate-IsInvalidated_example =
    broadcast_invalidate-IsInvalidated both_written 100 (1 ∷ []) both_written-WellFormed 1

-- The first of two threads arrives, then the second.
abbrev one_waits : BarrierState
one_waits = move init 0 waiting 1

abbrev second_returned : BarrierState
second_returned = move one_waits 1 returned 0

first_arrives : Reach 2 init one_waits
unfolding arrive
first_arrives = next here (arrival 0 refl)

second_arrives : Reach 2 one_waits second_returned
unfolding arrive
second_arrives = next here (arrival 1 refl)

global_barrier-waiting_example : second_returned.position 0 ≡ waiting
global_barrier-waiting_example =
    global_barrier-waiting 2 0 (omega arith) first_arrives refl second_arrives

abbrev pool : MemoryPool
pool = reset (Pools.create 8)

-- A pool that was reset hands out its first block.
allocate_three :
    allocate pool 3 ≡ some (record { block = 0; index = 0 }, record pool { current_index = 3 })
unfolding allocate reset Pools.create
allocate_three = refl

pool-IsValid : IsValid pool
unfolding reset Pools.create
pool-IsValid = record {
  sized = omega arith;
  within = omega arith;
  few = omega arith;
  near = omega arith;
}

allocate-IsAllocated_example :
    (3 ≤ 8)
      × IsAllocated pool 3 (record { block = 0; index = 0 }) (record pool { current_index = 3 })
    ⊎ (8 < 3)
      × IsOversized pool 3 (record { block = 0; index = 0 }) (record pool { current_index = 3 })
unfolding reset Pools.create
allocate-IsAllocated_example = allocate-IsAllocated pool 3 pool-IsValid allocate_three

-- Nine objects in a block of eight, from a pool with a second block.
allocate_nine :
    allocate (record pool { blocks = 2 }) 9
    ≡ some (
      record { block = 1; index = 0 },
      record pool { blocks = 2; current_block = 1; current_index = 9 },
    )
unfolding allocate reset Pools.create
allocate_nine = refl
