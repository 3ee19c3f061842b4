-- ===== src/Cache/State.antt =====
-- `CacheBlock` and `CacheSet` of src/core/cache_block.h, and the state of `Cache` of src/core/cache.h.
-- A block's bytes are left out: no code of the simulator reads or writes them. The counters of
-- type `int` are numbers without a bound.
use cache_simulator.Prelude.{ℕ, Bool, false, ◌||◌, List, replicate, Option, none, some}
use cache_simulator.Coherence.Mesi
use cache_simulator.Coherence.Mesi.{MesiState, MesiProtocol, invalid, exclusive}
use cache_simulator.Prefetch.StreamBuffer
use cache_simulator.Prefetch.StreamBuffer.{StreamBuffer}
use cache_simulator.Replacement.Policy
use cache_simulator.Replacement.Policy.{Policy, ReplacementPolicy}
use cache_simulator.Cache.Config.{
  CacheConfig, WritePolicy, Geometry, Result, ok, abort, ◌>>=◌, positive, quotient, set_bytes,
  no_sets, validate,
}

pub record CacheBlock : Type 0 where
  pub valid : Bool
  pub dirty : Bool
  pub tag : ℕ
  pub mesi_state : MesiState
  pub access_count : ℕ
  pub last_access : ℕ
  pub prefetched : Bool

abbrev pub empty_block : CacheBlock
empty_block = record {
  valid = false;
  dirty = false;
  tag = 0;
  mesi_state = invalid;
  access_count = 0;
  last_access = 0;
  prefetched = false;
}

abbrev pub is_modified : CacheBlock → Bool
is_modified b = Mesi.is_modified b.mesi_state

unfoldable pub requires_writeback : CacheBlock → Bool
unfolding Mesi.is_modified
requires_writeback b = b.dirty || is_modified b

pub data CacheMissType : Type 0 where
  compulsory capacity conflict coherence : CacheMissType

-- The array `missTypeStats`, one field for each type.
pub record MissTypeStats : Type 0 where
  pub compulsory_misses : ℕ
  pub capacity_misses : ℕ
  pub conflict_misses : ℕ
  pub coherence_misses : ℕ

abbrev pub no_misses : MissTypeStats
no_misses = record {
  compulsory_misses = 0;
  capacity_misses = 0;
  conflict_misses = 0;
  coherence_misses = 0;
}

pub record Cache : Type 0 where
  pub size : ℕ
  pub associativity : ℕ
  pub block_size : ℕ
  pub num_sets : ℕ
  pub replacement_policy : ReplacementPolicy
  pub write_policy : WritePolicy
  pub sets : List (List CacheBlock)
  pub replacement_policies : List Policy
  pub stream_buffer : StreamBuffer
  pub prefetch_enabled : Bool
  pub mesi_protocol : MesiProtocol
  pub hits : ℕ
  pub misses : ℕ
  pub reads : ℕ
  pub writes : ℕ
  pub write_backs : ℕ
  pub write_throughs : ℕ
  pub miss_type_stats : MissTypeStats

-- The constructor, after its tests: `n` is the number of sets, and `policy` the policy of each.
unfoldable pub build : CacheConfig → Geometry → ℕ → Policy → Cache
unfolding StreamBuffer.create Mesi.create
build config g n policy = record {
  size = g.size;
  associativity = g.associativity;
  block_size = g.block_size;
  num_sets = n;
  replacement_policy = config.replacement_policy;
  write_policy = config.write_policy;
  sets = replicate n (replicate g.associativity empty_block);
  replacement_policies = replicate n policy;
  stream_buffer = StreamBuffer.create g.prefetch_distance;
  prefetch_enabled = config.prefetch_enabled;
  mesi_protocol = Mesi.create;
  hits = 0;
  misses = 0;
  reads = 0;
  writes = 0;
  write_backs = 0;
  write_throughs = 0;
  miss_type_stats = no_misses;
}

abbrev pub asserted {ℓ} : {A : Type ℓ} → Option A → Result A
asserted none = abort
asserted (some a) = ok a

-- The constructor of `CacheConfig` throws on a configuration that does not validate, so none reaches
-- the constructor of `Cache`: here both run, one after the other. `draws` seeds the random policies.
unfoldable pub create : (ℕ → ℕ) → CacheConfig → Result Cache
unfolding validate build set_bytes Policy.create
create draws config = do
  g ← validate config
  q ← quotient g.size (set_bytes g.associativity g.block_size)
  n ← positive q no_sets
  policy ← asserted (Policy.create draws config.replacement_policy g.associativity)
  ok (build config g n policy)
