-- ===== src/Cache/Counters.antt =====
-- The statistics of a cache against each other.
use cache_simulator.Prelude.{
  ℕ, ◌%◌, ◌+◌, ◌≡◌, refl, ◌∙◌, inl, inr, Bool, true, false, not, ◌&&◌, List, Option, none, some,
  arith, ◌==◌, Bool-cases, Option-cases, if◌then◌else◌, u32_mod,
}
use cache_simulator.Prefetch.StridePredictor.{StridePredictor, get_stride}
use cache_simulator.Cache.State.{CacheBlock, Cache, CacheMissType, MissTypeStats}
use cache_simulator.Cache.Lookup.{
  tag_of, set_index_of, set_at, find_way, find_block, find_victim, classify_miss,
}
use cache_simulator.Cache.Access.{
  World, is_write_through, put_policy, count_access, count_miss, install_block, fill, write_hit,
  on_hit, prefetch_block, handle_prefetch, prefetch_after, probe, consume, on_miss, access,
  write_through_to, tick,
}
use cache_simulator.Cache.Invariant.{evict_lem, probe_lem}

-- The counters of accesses, hits and misses.
pub record Counters : Type 0 where
  pub hits : ℕ
  pub misses : ℕ
  pub reads : ℕ
  pub writes : ℕ
  pub kinds : MissTypeStats

abbrev pub counters : Cache → Counters
counters c = record {
  hits = c.hits;
  misses = c.misses;
  reads = c.reads;
  writes = c.writes;
  kinds = c.miss_type_stats;
}

module _ {ℓ} {N : Type ℓ} (forward : World N → ℕ → Bool → World N) where
  pub fill-counters :
      (c : Cache) (a : ℕ) (is_write is_prefetch : Bool) (w : World N)
      → counters (fill forward c a is_write is_prefetch w).0 ≡ counters c
  unfolding fill install_block
  fill-counters c a is_write is_prefetch w =
      let i = set_index_of c a in
      let (p, way) = find_victim c i in rw (evict_lem forward (put_policy c i p) i way w)

  write_hit-counters :
      (c : Cache) (a i way : ℕ) (w : World N)
      → counters (write_hit forward c a i way w).0 ≡ counters c
  unfolding write_hit write_through_to
  write_hit-counters c a i way w = elim (Bool-cases (is_write_through c.write_policy)) [
    | inl y ↦ rw (y, write_hit)
    | inr n ↦ rw (n, write_hit)
  ]

  pub on_hit-counters :
      (c : Cache) (a : ℕ) (is_write : Bool) (way : ℕ) (w : World N)
      → counters (on_hit forward c a is_write way w).0 ≡ counters (record c { hits = c.hits + 1 })
  unfolding on_hit
  on_hit-counters c a true way w = write_hit-counters _ a (set_index_of c a) way (tick w)
  on_hit-counters c a false way w = refl

  prefetch_block-counters :
      (c : Cache) (a : ℕ) (w : World N) → counters (prefetch_block forward c a w).0 ≡ counters c
  unfolding prefetch_block find_block
  prefetch_block-counters c a w =
      elim (Option-cases (find_way (tag_of c a) (set_at c (set_index_of c a)))) [
        | inl absent ↦ rw (absent, prefetch_block, find_block) (fill-counters c a false true w)
        | inr (way, found) ↦ rw (found, prefetch_block, find_block)
      ]

  handle_prefetch-counters :
      (c : Cache) (a : ℕ) (is_write : Bool) (predictor : StridePredictor) (w : World N)
      → counters (handle_prefetch forward c a is_write predictor w).0 ≡ counters c
  unfolding handle_prefetch
  handle_prefetch-counters c a is_write predictor w =
      let stride = get_stride predictor a in
      elim (Bool-cases (not is_write && not (stride == 0))) [
        | inl y ↦ rw (y, handle_prefetch) (prefetch_block-counters c ((a + stride) % u32_mod) w)
        | inr n ↦ rw (n, handle_prefetch)
      ]

  prefetch_after-counters :
      (c : Cache) (a : ℕ) (is_write : Bool) (predictor : Option StridePredictor) (w : World N)
      → counters (prefetch_after forward c a is_write predictor w).0 ≡ counters c
  unfolding prefetch_after
  prefetch_after-counters c a is_write none w = refl
  prefetch_after-counters c a is_write (some predictor) w =
      elim c.prefetch_enabled
        as (λ b.
          counters (if b then handle_prefetch forward c a is_write predictor w else (c, w)).0
          ≡ counters c) [ true ↦ handle_prefetch-counters c a is_write predictor w | false ↦ refl ]

  pub on_miss-counters :
      (c : Cache) (a : ℕ) (is_write : Bool) (predictor : Option StridePredictor) (w : World N)
      → counters (on_miss forward c a is_write predictor w).1 ≡ counters c
  unfolding on_miss
  on_miss-counters c a is_write predictor w =
      let (looked, served) = probe c a in
      let same : counters looked ≡ counters c = rw (probe_lem c a) in
      elim (Bool-cases served) [
        | inl y ↦ rw (y, on_miss) (consumed looked is_write ∙ same)
        | inr n ↦
            rw (n, on_miss)
              (prefetch_after-counters _ a is_write predictor _
                ∙ fill-counters looked a is_write false w
                ∙ same)
      ]
    where
      consumed : (d : Cache) (b : Bool) → counters (consume d b) ≡ counters d
      consumed d true = unfold consume in refl
      consumed d false = unfold consume in refl

-- Each access is a read or a write, and a hit or a miss of one of the first three types; what an
-- invalidation counts is apart.
pub record IsBalanced (k : Counters) : Type 0 where
  pub answered : k.hits + k.misses ≡ k.reads + k.writes
  pub classified :
      k.kinds.compulsory_misses + k.kinds.capacity_misses + k.kinds.conflict_misses ≡ k.misses

-- A lookup classifies a miss as one of the first three types.
record Adds (m m' : MissTypeStats) : Type 0 where
  one :
      m'.compulsory_misses + m'.capacity_misses + m'.conflict_misses
      ≡ m.compulsory_misses + m.capacity_misses + m.conflict_misses + 1
  invalidations : m'.coherence_misses ≡ m.coherence_misses

classify_miss-Adds :
    (c : Cache) (blocks : List CacheBlock) (m : MissTypeStats)
    → Adds m (count_miss (classify_miss c blocks) m)
unfolding classify_miss count_miss
classify_miss-Adds c blocks m = ground arith

hit_balance :
    (c : Cache) (is_write : Bool)
    → IsBalanced (counters c)
    → let k = counters (count_access c is_write) in IsBalanced (record k { hits = k.hits + 1 })
unfolding count_access
hit_balance c true b = record { answered = omega arith; classified = b.classified }
hit_balance c false b = record { answered = omega arith; classified = b.classified }

miss_balance :
    (c : Cache) (is_write : Bool) (kind : CacheMissType)
    → Adds c.miss_type_stats (count_miss kind c.miss_type_stats)
    → IsBalanced (counters c)
    → let k = counters (count_access c is_write) in
      IsBalanced (record k { misses = k.misses + 1; kinds = count_miss kind k.kinds })
unfolding count_access
miss_balance c true kind h b = record { answered = omega arith; classified = omega (arith, h.one) }
miss_balance c false kind h b = record { answered = omega arith; classified = omega (arith, h.one) }

module _ {ℓ} {N : Type ℓ} (forward : World N → ℕ → Bool → World N) where
  hit_counters :
      (c : Cache) (a way : ℕ) (is_write : Bool) (predictor : Option StridePredictor) (w : World N)
      → find_way (tag_of c a) (set_at c (set_index_of c a)) ≡ some way
      → let k = counters (count_access c is_write) in
        counters (access forward c a is_write predictor w).1 ≡ record k { hits = k.hits + 1 }
  unfolding access find_block
  hit_counters c a way is_write predictor w found =
      rw (found, access, find_block)
        (on_hit-counters forward (count_access c is_write) a is_write way w)

  miss_counters :
      (c : Cache) (a : ℕ) (is_write : Bool) (predictor : Option StridePredictor) (w : World N)
      → find_way (tag_of c a) (set_at c (set_index_of c a)) ≡ none
      → let k = counters (count_access c is_write) in
        counters (access forward c a is_write predictor w).1 ≡ record k {
          misses = k.misses + 1;
          kinds = count_miss (classify_miss c (set_at c (set_index_of c a))) k.kinds;
        }
  unfolding access find_block
  miss_counters c a is_write predictor w absent =
      rw (absent, access, find_block) (on_miss-counters forward _ a is_write predictor w)

  -- Where the hits and misses of a cache add up to its reads and writes, and its compulsory, capacity
  -- and conflict misses to its misses, every access keeps it so, whatever the next level and the
  -- prefetcher do.
  pub access-IsBalanced :
      (c : Cache) (a : ℕ) (is_write : Bool) (predictor : Option StridePredictor) (w : World N)
      → IsBalanced (counters c)
      → IsBalanced (counters (access forward c a is_write predictor w).1)
  access-IsBalanced c a is_write predictor w b =
      elim (Option-cases (find_way (tag_of c a) (set_at c (set_index_of c a)))) [
        | inl absent ↦ rw (miss_counters c a is_write predictor w absent) (
            miss_balance c is_write _
              (classify_miss-Adds c (set_at c (set_index_of c a)) c.miss_type_stats) b)
        | inr (way, found) ↦
            rw (hit_counters c a way is_write predictor w found) (hit_balance c is_write b)
      ]
