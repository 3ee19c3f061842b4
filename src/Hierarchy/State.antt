-- ===== src/Hierarchy/State.antt =====
-- `MemoryHierarchyConfig` and the constructor of `MemoryHierarchy` of src/core/memory_hierarchy.h
-- and src/core/memory_hierarchy.cpp. The profiler regions are in the configuration alone, and no
-- code of the hierarchy reads them; none reads `useStridePrediction` either. The counters of type
-- `int` are numbers without a bound. The caches of a hierarchy, and all others, share one counter.
use cache_simulator.Prelude.{ℕ, Bool, Option, none, some, if◌then◌else◌}
use cache_simulator.Prefetch.Adaptive
use cache_simulator.Prefetch.Adaptive.{AdaptivePrefetcher}
use cache_simulator.Prefetch.StridePredictor
use cache_simulator.Prefetch.StridePredictor.{StridePredictor}
use cache_simulator.Cache.Config.{
  CacheConfig, ℤ, Result, ok, ◌>>=◌, positive, non_negative, stride_table_not_positive,
}
use cache_simulator.Cache.State
use cache_simulator.Cache.State.{Cache}

pub record MemoryHierarchyConfig : Type 0 where
  pub l1_config : CacheConfig
  pub l2_config : Option CacheConfig
  pub l3_config : Option CacheConfig
  pub use_stride_prediction : Bool
  pub use_adaptive_prefetching : Bool
  pub stride_table_size : ℤ
  pub l3_inclusive : Bool

pub record MemoryHierarchy : Type 0 where
  pub l1 : Cache
  pub l2 : Option Cache
  pub l3 : Option Cache
  pub clock : ℕ
  pub stride_predictor : StridePredictor
  pub adaptive_prefetcher : Option AdaptivePrefetcher
  pub prefetch_distance : ℕ
  pub prefetch_enabled : Bool
  pub l3_inclusive : Bool
  pub l1_reads : ℕ
  pub l1_writes : ℕ
  pub l1_misses : ℕ
  pub l2_accesses : ℕ
  pub l2_misses : ℕ
  pub l3_accesses : ℕ
  pub l3_misses : ℕ
  pub useful_prefetches : ℕ
  pub useless_prefetches : ℕ

abbrev pub create_level : (ℕ → ℕ) → Option CacheConfig → Result (Option Cache)
create_level draws none = ok none
create_level draws (some config) = do c ← State.create draws config; ok (some c)

-- The members are built in the order of their declarations; the table's size is tested after L1.
unfoldable pub create : (ℕ → ℕ) → MemoryHierarchyConfig → Result MemoryHierarchy
create draws config = do
  l1 ← State.create draws config.l1_config
  distance ← non_negative config.l1_config.prefetch_distance stride_table_not_positive
  table_size ← positive config.stride_table_size stride_table_not_positive
  l2 ← create_level draws config.l2_config
  l3 ← create_level draws config.l3_config
  ok (record {
    l1 = l1;
    l2 = l2;
    l3 = l3;
    clock = 0;
    stride_predictor = StridePredictor.create table_size;
    adaptive_prefetcher =
        if config.use_adaptive_prefetching
        then some (Adaptive.create distance Adaptive.adaptive)
        else none;
    prefetch_distance = distance;
    prefetch_enabled = config.l1_config.prefetch_enabled;
    l3_inclusive = config.l3_inclusive;
    l1_reads = 0;
    l1_writes = 0;
    l1_misses = 0;
    l2_accesses = 0;
    l2_misses = 0;
    l3_accesses = 0;
    l3_misses = 0;
    useful_prefetches = 0;
    useless_prefetches = 0;
  })
