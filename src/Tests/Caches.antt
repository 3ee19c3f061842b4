-- ===== src/Tests/Caches.antt =====
-- A small cache and a hierarchy of three levels.
use cache_simulator.Prelude.{
  ℕ, ◌-◌, ◌%◌, ◌≡◌, ◌<◌, ◌⊎◌, refl, arith, Bool, true, false, List, [], ◌∷◌, none, some,
}
use cache_simulator.Replacement.Policy
use cache_simulator.Replacement.Policy.{Policy, ReplacementPolicy}
use cache_simulator.Replacement.Lru
use cache_simulator.Prefetch.StreamBuffer
use cache_simulator.Prefetch.StridePredictor
use cache_simulator.Coherence.Mesi
use cache_simulator.Cache.Config.{
  CacheConfig, pos, write_back, Geometry, ok, throw, abort, no_sets, set_bytes, validate, check,
}
use cache_simulator.Cache.State
use cache_simulator.Cache.State.{Cache, build}
use cache_simulator.Cache.Lookup.{
  set_index_of, block_at, find_victim, IsAbsent, get_tag_and_set, victim_address, find_way,
  find_invalid,
}
use cache_simulator.Cache.Access
use cache_simulator.Cache.Access.{World}
use cache_simulator.Cache.Shape.{WellFormed}
use cache_simulator.Cache.Invariant.{access-WellFormed}
use cache_simulator.Cache.Address.{victim_address-get_tag_and_set}
use cache_simulator.Cache.Create.{Outcome, create-Outcome, build-WellFormed}
use cache_simulator.Cache.Counters.{counters, IsBalanced, access-IsBalanced}
use cache_simulator.Cache.Residency.{Holds}
use cache_simulator.Cache.Retention.{access_twice, access_keeps}
use cache_simulator.Hierarchy.State.{MemoryHierarchy}
use cache_simulator.Hierarchy.Access as Hierarchy
use cache_simulator.Hierarchy.Access.{no_level, process_trace}
use cache_simulator.Hierarchy.Invariant.{HierarchyWellFormed, process_trace-HierarchyWellFormed}
use cache_simulator.Hierarchy.Traffic.{IsQuiet, StopsAtL2, process_trace-StopsAtL2}

abbrev pub config : CacheConfig
config = record {
  size = pos 64;
  associativity = pos 2;
  block_size = pos 16;
  prefetch_enabled = false;
  prefetch_distance = pos 4;
  replacement_policy = ReplacementPolicy.lru;
  write_policy = write_back;
}

abbrev pub geometry : Geometry
geometry = record { size = 64; associativity = 2; block_size = 16; prefetch_distance = 4 }

abbrev pub draws : ℕ → ℕ
draws n = n

abbrev pub small_policy : Policy.Policy
small_policy = Policy.lru_policy (Lru.create 2)

abbrev pub small : Cache
small = build config geometry 2 small_policy

abbrev pub start : World (Unit {0})
start = record { clock = 0; lower = tt }

pub config_passes : validate config ≡ ok geometry
unfolding validate check
config_passes = refl

create-Outcome_example : Outcome draws config geometry (pos 32)
unfolding set_bytes
create-Outcome_example = create-Outcome draws config geometry config_passes

small_lem : State.create draws config ≡ ok small
unfolding State.create
small_lem = refl

-- The product of the associativity and the block size is -65536 as an `int`.
abbrev wide : CacheConfig
wide = record config { size = pos 65536; associativity = pos 65535; block_size = pos 65536 }

wide-create : State.create draws wide ≡ throw no_sets
unfolding State.create
wide-create = refl

-- Three ways fail the assertion of the PLRU policy.
three_ways :
    State.create draws (record config {
      size = pos 96;
      associativity = pos 3;
      replacement_policy = ReplacementPolicy.plru;
    })
    ≡ abort
unfolding State.create
three_ways = refl

-- The product of 65536 ways and 65536 bytes is 0 as an `int`, and the validation divides by it.
validate_wider : validate (record wide { associativity = pos 65536 }) ≡ abort
unfolding validate
validate_wider = refl

pub small-WellFormed : WellFormed small
small-WellFormed =
    build-WellFormed config geometry 2 small_policy (omega arith) (omega arith) (omega arith)

pub small_off : small.prefetch_enabled ≡ false
unfolding build
small_off = refl

access-WellFormed_example : WellFormed (Access.access no_level small 100 true none start).1
access-WellFormed_example = access-WellFormed no_level small 100 true none start small-WellFormed

access_twice_example :
    (Access.access no_level
      (Access.access no_level small 100 true none start).1
      100
      false
      none
      start).0
    ≡ true
access_twice_example =
    access_twice no_level small 100 true false none none start start small-WellFormed small_off

-- A cache after one access.
abbrev pub warmed : Cache
warmed = (Access.access no_level small 100 true none start).1

pub warmed-WellFormed : WellFormed warmed
warmed-WellFormed = access-WellFormed no_level small 100 true none start small-WellFormed

program : Unit {0}
unfolding build State.create Access.access Access.on_miss Access.probe Access.fill Access.evict
    Access.install_block Access.count_access Access.count_miss find_way find_invalid find_victim
    Policy.create Policy.on_install Policy.on_access Policy.select_victim Lru.create Lru.on_install
    Lru.on_access Lru.move_to_front StreamBuffer.create StreamBuffer.access Mesi.create
    Mesi.record_state_transition Mesi.state_to_index Mesi.count_transition Mesi.is_modified
    State.requires_writeback cache_simulator.Cache.Lookup.find_block
    cache_simulator.Cache.Lookup.classify_miss Access.prefetch_after
program = tt

warmed-Holds : Holds warmed 100 0
unfolding program
warmed-Holds = refl

warmed_off : warmed.prefetch_enabled ≡ false
unfolding program
warmed_off = refl

access_keeps_example :
    Holds (Access.access no_level warmed 36 false none start).1 100 0
    ⊎ IsAbsent warmed 36
      × (set_index_of warmed 36 ≡ set_index_of warmed 100)
      × ((find_victim warmed (set_index_of warmed 36)).1 ≡ 0)
      × ((j : ℕ)
          → j < warmed.associativity
          → (block_at warmed (set_index_of warmed 36) j).valid ≡ true)
access_keeps_example =
    access_keeps no_level warmed 36 100 0 false none start warmed-WellFormed warmed_off warmed-Holds

victim_address-get_tag_and_set_example :
    (victim_address small 3 0 ≡ 100 - 100 % small.block_size)
    × (get_tag_and_set small (victim_address small 3 0) ≡ (3, 0))
unfolding build get_tag_and_set
victim_address-get_tag_and_set_example =
    victim_address-get_tag_and_set small 100 (omega arith) (omega arith)

small-IsBalanced : IsBalanced (counters small)
unfolding build
small-IsBalanced = record { answered = refl; classified = refl }

access-IsBalanced_example :
    IsBalanced (counters (Access.access no_level small 100 true none start).1)
access-IsBalanced_example = access-IsBalanced no_level small 100 true none start small-IsBalanced

abbrev three_levels : MemoryHierarchy
three_levels = record {
  l1 = small;
  l2 = some small;
  l3 = some small;
  clock = 0;
  stride_predictor = StridePredictor.create 16;
  adaptive_prefetcher = none;
  prefetch_distance = 4;
  prefetch_enabled = false;
  l3_inclusive = true;
  l1_reads = 0;
  l1_writes = 0;
  l1_misses = 0;
  l2_accesses = 0;
  l2_misses = 0;
  l3_accesses = 0;
  l3_misses = 0;
  useful_prefetches = 0;
  useless_prefetches = 0;
}

abbrev longer : List Bool → List Bool → Bool
longer xs ys = true

abbrev trace : List (ℕ × Bool)
trace = (100, true) ∷ (36, false) ∷ (4, false) ∷ (100, false) ∷ []

three_levels-IsQuiet : IsQuiet three_levels
three_levels-IsQuiet = record {
  l1_formed = small-WellFormed;
  l1_off = small_off;
  l2_plain = record { cache = small; present = refl; formed = small-WellFormed; off = small_off };
}

process_trace-StopsAtL2_example : StopsAtL2 three_levels (process_trace longer three_levels trace)
process_trace-StopsAtL2_example =
    process_trace-StopsAtL2 longer three_levels trace three_levels-IsQuiet

process_trace-HierarchyWellFormed_example :
    HierarchyWellFormed (process_trace longer three_levels trace)
process_trace-HierarchyWellFormed_example =
    process_trace-HierarchyWellFormed longer three_levels trace (record {
      l1_formed = small-WellFormed;
      l2_formed = small-WellFormed;
      l3_formed = small-WellFormed;
    })

-- In the trace the first read of every block misses L1, and L2 counts accesses but no miss.
trace_counts :
    let h = process_trace longer three_levels trace in
    (h.l1_misses ≡ 4) × (h.l2_accesses ≡ 4) × (h.l2_misses ≡ 0)
unfolding program Hierarchy.update_stride Hierarchy.access Hierarchy.access_l1 Hierarchy.into_l2
    Hierarchy.access_last Hierarchy.after_l1_miss Hierarchy.count Hierarchy.adapt process_trace
    Access.on_hit Access.write_hit Access.write_back_to victim_address
trace_counts = (refl, refl, refl)
