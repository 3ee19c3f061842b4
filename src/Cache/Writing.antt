-- ===== src/Cache/Writing.antt =====
-- A write that misses, under either write policy.
use cache_simulator.Prelude.{ℕ, ◌≡◌, refl, ap, ◌∙◌, arith, Bool, true, false, ◌&&◌, Option, ◌==◌}
use cache_simulator.Prefetch.StridePredictor.{StridePredictor}
use cache_simulator.Cache.State.{Cache, CacheBlock, requires_writeback}
use cache_simulator.Cache.Lookup.{set_index_of, tag_of, block_at, find_victim, IsAbsent}
use cache_simulator.Cache.Access.{World, count_access, installed, fill, access}
use cache_simulator.Cache.Shape.{WellFormed}
use cache_simulator.Cache.Invariant.{set_index_of-lt, find_victim-lt}
use cache_simulator.Cache.Tags.{block_at-put_block}
use cache_simulator.Cache.Residency.{fill_lem}
use cache_simulator.Cache.Retention.{missed, access-fill}

module _ {ℓ} {N : Type ℓ} (forward : World N → ℕ → Bool → World N) where
  -- The block that a fill leaves in the victim's way, and the write-throughs.
  filled :
      (c : Cache) (a : ℕ) (is_write is_prefetch : Bool) (w : World N)
      → WellFormed c
      → let i = set_index_of c a in
        let c' = (fill forward c a is_write is_prefetch w).0 in
        (stamp : ℕ) × (block_at c' i (find_victim c i).1 ≡ installed c a is_write is_prefetch stamp)
        × (c'.write_throughs ≡ c.write_throughs)
  filled c a is_write is_prefetch w wf =
      let i = set_index_of c a in
      let way = (find_victim c i).1 in
      let (stamp, e) = fill_lem forward c a is_write is_prefetch w in
      let b = installed c a is_write is_prefetch stamp in
      let hi = set_index_of-lt c wf a in
      let hw = find_victim-lt c wf i hi in
      let at =
        block_at-put_block c.sets i way i way b (omega (arith, wf.set_count))
          (omega (arith, wf.ways i hi)) in
      let here : (i == i && way == way) ≡ true = ground arith in
      (
        stamp,
        ap (λ (d : Cache). block_at d i way) e ∙ at ∙ rw here refl,
        ap (λ (d : Cache). d.write_throughs) e,
      )

  -- Without prefetching, a write that misses leaves a dirty and modified block and no write-through,
  -- whatever the write policy is: under write-through too the block waits for its eviction to be
  -- written back.
  pub access-requires_writeback :
      (c : Cache) (a : ℕ) (predictor : Option StridePredictor) (w : World N)
      → WellFormed c
      → c.prefetch_enabled ≡ false
      → IsAbsent c a
      → let c' = (access forward c a true predictor w).1 in
        (way : ℕ) × ((block_at c' (set_index_of c a) way).tag ≡ tag_of c a)
        × (requires_writeback (block_at c' (set_index_of c a) way) ≡ true)
        × (c'.write_throughs ≡ c.write_throughs)
  unfolding requires_writeback count_access
  access-requires_writeback c a predictor w wf off absent =
      let m = missed c a true in
      let (stamp, at, kept) = filled m a true false w wf in
      let way = (find_victim m (set_index_of m a)).1 in
      let fills = access-fill forward c a true predictor w off absent in
      let full : block_at (access forward c a true predictor w).1 (set_index_of c a) way
          ≡ installed m a true false stamp =
        ap (λ (r : Bool × Cache × World N). block_at r.1 (set_index_of c a) way) fills ∙ at in
      (
        way,
        ap (λ (b : CacheBlock). b.tag) full,
        ap requires_writeback full,
        ap (λ (r : Bool × Cache × World N). r.1.write_throughs) fills ∙ kept,
      )
