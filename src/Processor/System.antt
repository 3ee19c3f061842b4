-- ===== src/Processor/System.antt =====
-- `MultiProcessorSystem` of src/core/multiprocessor/processor_core.h and .cpp, one call after the other. The
-- shared L2 and L3 caches, which no method uses after the constructor, are left out; the barrier is in
-- Processor/Barrier. `none` is the exception for an invalid processor.
use cache_simulator.Prelude.{
  ℕ, zero, suc, ◌+◌, Bool, List, [], ◌∷◌, map, Option, none, some, get_elem?, set, add64,
}
use cache_simulator.Cache.Config.{CacheConfig, Result, ok, ◌>>=◌}
use cache_simulator.Cache.State as Caches
use cache_simulator.Directory.State as Directory
use cache_simulator.Directory.State.{CoherenceController}
use cache_simulator.Directory.Requests as Requests
use cache_simulator.Processor.Core
use cache_simulator.Processor.Core.{ProcessorCore, Shared, Progress}

pub record MultiProcessorSystem : Type 0 where
  pub processors : List ProcessorCore
  pub world : Shared
  pub system_cycles : ℕ
  pub coherence_messages : ℕ

-- `left` cores from number `id` on. Each core has random numbers of its own.
unfoldable pub create_cores : (ℕ → ℕ → ℕ) → CacheConfig → ℕ → ℕ → Result (List ProcessorCore)
create_cores draws config id zero = ok []
create_cores draws config id (suc left) = do
  cache ← Caches.create (draws id) config
  rest ← create_cores draws config (id + 1) left
  ok (Core.create id cache ∷ rest)

unfoldable pub create : (ℕ → ℕ → ℕ) → CacheConfig → ℕ → ℕ → ℕ → Result MultiProcessorSystem
unfolding create_cores
create draws l1_config num_processors interconnect_latency clock = do
  processors ← create_cores draws l1_config 0 num_processors
  ok (record {
    processors = processors;
    world = record {
      controller = Directory.create num_processors interconnect_latency;
      clock = clock;
    };
    system_cycles = 0;
    coherence_messages = 0;
  })

unfoldable pub get_processor : MultiProcessorSystem → ℕ → Option ProcessorCore
get_processor s id = get_elem? s.processors id

abbrev pub put_progress : MultiProcessorSystem → ℕ → Progress → MultiProcessorSystem
put_progress s id p = record s { processors = set s.processors id p.core; world = p.world }

unfoldable pub process_access :
    MultiProcessorSystem → ℕ → ℕ → Bool → Option (MultiProcessorSystem × ℕ)
unfolding get_processor
process_access s id address is_write = elim (get_processor s id) [
  | none ↦ none
  | some c ↦
      (let p = Core.access c s.world address is_write in
        some (
          record (put_progress s id p) { system_cycles = add64 s.system_cycles p.latency },
          p.latency,
        ))
]

-- An atomic access adds no system cycles.
unfoldable pub process_atomic_access :
    MultiProcessorSystem → ℕ → ℕ → Bool → Option (MultiProcessorSystem × ℕ)
unfolding get_processor
process_atomic_access s id address is_write = elim (get_processor s id) [
  | none ↦ none
  | some c ↦
      (let p = Core.atomic_access c s.world address is_write in
        some (put_progress s id p, p.latency))
]

unfoldable pub execute_barrier :
    MultiProcessorSystem → ℕ → Bool → Bool → Option MultiProcessorSystem
unfolding get_processor
execute_barrier s id is_acquire is_release = elim (get_processor s id) [
  | none ↦ none
  | some c ↦
      some (record s {
        processors = set s.processors id (Core.memory_barrier c is_acquire is_release);
      })
]

unfoldable pub reset_all_stats : MultiProcessorSystem → MultiProcessorSystem
unfolding Core.reset_stats Requests.reset_stats
reset_all_stats s = record s {
  processors = map Core.reset_stats s.processors;
  world = record s.world { controller = Requests.reset_stats s.world.controller };
  system_cycles = 0;
  coherence_messages = 0;
}

-- The counts of `getSystemStats`; its averages in floating point are left out.
pub record SystemStats : Type 0 where
  pub total_accesses : ℕ
  pub total_hits : ℕ
  pub total_misses : ℕ
  pub coherence_traffic : ℕ
  pub interconnect_messages : ℕ

unfoldable pub add_core : List ProcessorCore → SystemStats → SystemStats
add_core [] stats = stats
add_core (c ∷ rest) stats = add_core rest (record stats {
  total_accesses = add64 stats.total_accesses c.total_accesses;
  total_hits = add64 stats.total_hits c.l1_hits;
  total_misses = add64 stats.total_misses c.l1_misses;
})

unfoldable pub get_system_stats : MultiProcessorSystem → SystemStats
unfolding add_core
get_system_stats s =
    let messages = s.world.controller.coherence_messages in
    add_core s.processors (record {
      total_accesses = 0;
      total_hits = 0;
      total_misses = 0;
      coherence_traffic = messages;
      interconnect_messages = messages;
    })
