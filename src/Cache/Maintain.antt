-- ===== src/Cache/Maintain.antt =====
-- The operations of `Cache` of src/core/cache.cpp beside an access: invalidation, a new MESI state, the
-- warm-up and the reset of the statistics.
use cache_simulator.Prelude.{ℕ, false, not, List, [], ◌∷◌, none, some, if◌then◌else◌}
use cache_simulator.Coherence.Mesi
use cache_simulator.Coherence.Mesi.{MesiState}
use cache_simulator.Prefetch.StreamBuffer
use cache_simulator.Cache.State.{Cache, coherence, no_misses}
use cache_simulator.Cache.Lookup.{set_index_of, tag_of, set_at, block_at, find_way}
use cache_simulator.Cache.Access
use cache_simulator.Cache.Access.{World, put_block, count_miss}

-- The remote write decides the block's state; a block that it makes invalid is dropped and counted.
unfoldable pub invalidate_block : Cache → ℕ → Cache
invalidate_block c address =
    let i = set_index_of c address in
    elim (find_way (tag_of c address) (set_at c i)) [
      | none ↦ c
      | some way ↦
          (let b = block_at c i way in
            let (protocol, state) = Mesi.handle_remote_write c.mesi_protocol b.mesi_state in
            let c' = record c { mesi_protocol = protocol } in
            if not (Mesi.is_valid state)
            then (record (put_block c' i way (record b { mesi_state = state; valid = false })) {
              miss_type_stats = count_miss coherence c.miss_type_stats;
            })
            else put_block c' i way (record b { mesi_state = state }))
    ]

unfoldable pub update_mesi_state : Cache → ℕ → MesiState → Cache
update_mesi_state c address state =
    let i = set_index_of c address in
    elim (find_way (tag_of c address) (set_at c i)) [
      | none ↦ c
      | some way ↦
          (let b = block_at c i way in
            let c' = record c {
              mesi_protocol = Mesi.record_state_transition c.mesi_protocol b.mesi_state state;
            } in
            if not (Mesi.is_valid state)
            then put_block c' i way (record b { mesi_state = state; valid = false })
            else put_block c' i way (record b { mesi_state = state }))
    ]

-- Read accesses without a next level and without a predictor.
unfoldable pub warm : Cache → List ℕ → World (Unit {0}) → Cache × World (Unit {0})
warm c [] w = (c, w)
warm c (address ∷ rest) w =
    let (was_hit, c', w') = Access.access (λ v a is_write. v) c address false none w in
    warm c' rest w'

unfoldable pub warmup : Cache → List ℕ → World (Unit {0}) → Cache × World (Unit {0})
warmup c addresses w =
    let (c', w') = warm c addresses w in
    (
      record c' {
        hits = c.hits;
        misses = c.misses;
        reads = c.reads;
        writes = c.writes;
        write_backs = c.write_backs;
        write_throughs = c.write_throughs;
        miss_type_stats = c.miss_type_stats;
      },
      w',
    )

unfoldable pub reset_stats : Cache → Cache
reset_stats c = record c {
  hits = 0;
  misses = 0;
  reads = 0;
  writes = 0;
  write_backs = 0;
  write_throughs = 0;
  miss_type_stats = no_misses;
  stream_buffer = StreamBuffer.reset_stats c.stream_buffer;
  mesi_protocol = Mesi.reset_stats c.mesi_protocol;
}
