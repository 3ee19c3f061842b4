-- ===== src/Cache/Access.antt =====
-- The parts of `Cache` of src/core/cache.cpp that change the state. The levels below are a state
-- `N` with the operation `forward`, a call of `nextLevel->access` whose result is dropped; where
-- there is no next level, `forward` changes nothing. The global access counter, a `uint64_t` that
-- all caches share, stands beside it.
use cache_simulator.Prelude.{
  ℕ, ◌+◌, ◌%◌, Bool, true, false, not, ◌&&◌, Option, none, some, ◌==◌, set, if◌then◌else◌, u32_mod,
  u64_mod,
}
use cache_simulator.Coherence.Mesi
use cache_simulator.Coherence.Mesi.{MesiState, modified, exclusive, invalid}
use cache_simulator.Prefetch.StreamBuffer
use cache_simulator.Prefetch.StridePredictor
use cache_simulator.Prefetch.StridePredictor.{StridePredictor}
use cache_simulator.Replacement.Policy
use cache_simulator.Replacement.Policy.{Policy}
use cache_simulator.Cache.Config.{WritePolicy, write_through}
use cache_simulator.Cache.State.{
  Cache, CacheBlock, CacheMissType, compulsory, capacity, conflict, coherence, MissTypeStats,
  requires_writeback,
}
use cache_simulator.Cache.Lookup.{
  hit, miss, set_index_of, tag_of, set_at, find_block, find_victim, policy_at, victim_address,
  block_at,
}

pub record World {ℓ} (N : Type ℓ) : Type ℓ where
  pub clock : ℕ
  pub lower : N

-- `globalAccessCounter.fetch_add(1)`: the old value is used, the new one is kept.
abbrev pub tick {ℓ} : {N : Type ℓ} → World N → World N
tick w = record w { clock = (w.clock + 1) % u64_mod }

abbrev pub put_block : Cache → ℕ → ℕ → CacheBlock → Cache
put_block c i way b = record c { sets = set c.sets i (set (set_at c i) way b) }

abbrev pub put_policy : Cache → ℕ → Policy → Cache
put_policy c i p = record c { replacement_policies = set c.replacement_policies i p }

unfoldable pub count_miss : CacheMissType → MissTypeStats → MissTypeStats
count_miss compulsory m = record m { compulsory_misses = m.compulsory_misses + 1 }
count_miss capacity m = record m { capacity_misses = m.capacity_misses + 1 }
count_miss conflict m = record m { conflict_misses = m.conflict_misses + 1 }
count_miss coherence m = record m { coherence_misses = m.coherence_misses + 1 }

abbrev pub is_write_through : WritePolicy → Bool
is_write_through write_through = true
is_write_through _ = false

-- The new content of a way; its access count and stamp start again.
abbrev pub installed : Cache → ℕ → Bool → Bool → ℕ → CacheBlock
installed c address is_write is_prefetch stamp = record {
  valid = true;
  dirty = is_write;
  tag = tag_of c address;
  mesi_state = if is_write then modified else exclusive;
  access_count = 1;
  last_access = stamp;
  prefetched = is_prefetch;
}

-- `block.accessCount` is a `uint32_t`.
abbrev pub touched : CacheBlock → ℕ → CacheBlock
touched b stamp = record b { access_count = (b.access_count + 1) % u32_mod; last_access = stamp }

unfoldable pub count_access : Cache → Bool → Cache
count_access c true = record c { writes = c.writes + 1 }
count_access c false = record c { reads = c.reads + 1 }

-- `prefetchEnabled && streamBuffer.access(address)`
unfoldable pub probe : Cache → ℕ → Cache × Bool
probe c address =
    let (buffer, served) = StreamBuffer.access c.stream_buffer address in
    if c.prefetch_enabled then (record c { stream_buffer = buffer }, served) else (c, false)

-- Only a read shifts the stream buffer.
unfoldable pub consume : Cache → Bool → Cache
consume c true = c
consume c false = record c { stream_buffer = StreamBuffer.shift c.stream_buffer }

module _ {ℓ} {N : Type ℓ} (forward : World N → ℕ → Bool → World N) where
  unfoldable pub write_back_to : Cache → ℕ → World N → Cache × World N
  write_back_to c address w = (record c { write_backs = c.write_backs + 1 }, forward w address true)

  unfoldable pub write_through_to : Cache → ℕ → World N → Cache × World N
  write_through_to c address w =
      (record c { write_throughs = c.write_throughs + 1 }, forward w address true)

  unfoldable pub install_block : Cache → ℕ → ℕ → ℕ → Bool → Bool → World N → Cache × World N
  install_block c address i way is_write is_prefetch w =
      let w' = forward w address false in
      let old = (block_at c i way).mesi_state in
      let state = if is_write then modified else exclusive in
      let c' = put_block c i way (installed c address is_write is_prefetch w'.clock) in
      (
        record c' { mesi_protocol = Mesi.record_state_transition c.mesi_protocol old state },
        tick w',
      )

  -- Where the victim is valid and needs it, it is written to the next level at its own address.
  unfoldable pub evict : Cache → ℕ → ℕ → World N → Cache × World N
  evict c i way w =
      let b = block_at c i way in
      if b.valid && requires_writeback b
      then write_back_to c (victim_address c b.tag i) w
      else (c, w)

  -- The common part of a miss and of a prefetch: choose a victim, write it back, install the block
  -- and tell the policy.
  unfoldable pub fill : Cache → ℕ → Bool → Bool → World N → Cache × World N
  fill c address is_write is_prefetch w =
      let i = set_index_of c address in
      let (p, way) = find_victim c i in
      let (c1, w1) = evict (put_policy c i p) i way w in
      let (c2, w2) = install_block c1 address i way is_write is_prefetch w1 in
      (put_policy c2 i (Policy.on_install (policy_at c2 i) way), w2)

  -- A block that is present is left alone.
  unfoldable pub prefetch_block : Cache → ℕ → World N → Cache × World N
  prefetch_block c target w = elim (find_block c target) [
    | hit way ↦ (c, w)
    | miss kind ↦ fill c target false true w
  ]

  unfoldable pub handle_prefetch : Cache → ℕ → Bool → StridePredictor → World N → Cache × World N
  handle_prefetch c address is_write predictor w =
      let stride = StridePredictor.get_stride predictor address in
      let target = (address + stride) % u32_mod in
      let (c1, w1) = prefetch_block c target w in
      if not is_write && not (stride == 0)
      then (record c1 { stream_buffer = StreamBuffer.prefetch c1.stream_buffer target }, w1)
      else (c, w)

  -- The branch of a write hit: forwarded and clean, or kept back and dirty.
  unfoldable pub write_hit : Cache → ℕ → ℕ → ℕ → World N → Cache × World N
  write_hit c address i way w =
      let b = block_at c i way in
      if is_write_through c.write_policy
      then (let (c1, w1) = write_through_to c address w in
          (put_block c1 i way (record b { dirty = false }), w1))
      else (let c1 = put_block c i way (record b { dirty = true; mesi_state = modified }) in
          (
            record c1 {
              mesi_protocol = Mesi.record_state_transition c.mesi_protocol b.mesi_state modified;
            },
            w,
          ))

  unfoldable pub on_hit : Cache → ℕ → Bool → ℕ → World N → Cache × World N
  on_hit c address is_write way w =
      let i = set_index_of c address in
      let c1 =
        put_block (record c { hits = c.hits + 1 }) i way (touched (block_at c i way) w.clock) in
      let (c2, w2) = if is_write then write_hit c1 address i way (tick w) else (c1, tick w) in
      (put_policy c2 i (Policy.on_access (policy_at c2 i) way), w2)

  unfoldable pub prefetch_after :
      Cache → ℕ → Bool → Option StridePredictor → World N → Cache × World N
  prefetch_after c address is_write none w = (c, w)
  prefetch_after c address is_write (some predictor) w =
      if c.prefetch_enabled then handle_prefetch c address is_write predictor w else (c, w)

  -- The stream buffer answers first, where prefetching is enabled.
  unfoldable pub on_miss :
      Cache → ℕ → Bool → Option StridePredictor → World N → Bool × Cache × World N
  on_miss c address is_write predictor w =
      let (looked, served) = probe c address in
      elim served [
        | true ↦ (true, consume looked is_write, w)
        | false ↦
            (let (c1, w1) = fill looked address is_write false w in
              let (c2, w2) = prefetch_after c1 address is_write predictor w1 in (false, c2, w2))
      ]

  unfoldable pub access :
      Cache → ℕ → Bool → Option StridePredictor → World N → Bool × Cache × World N
  access c address is_write predictor w =
      let c0 = count_access c is_write in
      elim (find_block c address) [
        | hit way ↦ (let (c1, w1) = on_hit c0 address is_write way w in (true, c1, w1))
        | miss kind ↦
            on_miss
              (record c0 {
                misses = c0.misses + 1;
                miss_type_stats = count_miss kind c0.miss_type_stats;
              })
              address is_write predictor w
      ]
