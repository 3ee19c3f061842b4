-- ===== src/Tests/Changes.antt =====
-- Invalidation, write misses and the warm-up of the small cache.
use cache_simulator.Prelude.{ℕ, ◌≡◌, ◌⊎◌, refl, true, none}
use cache_simulator.Cache.Config.{write_through}
use cache_simulator.Cache.State.{Cache, build, requires_writeback}
use cache_simulator.Cache.Lookup.{set_index_of, tag_of, block_at, find_way, IsAbsent}
use cache_simulator.Cache.Access as Access
use cache_simulator.Cache.Maintain.{invalidate_block}
use cache_simulator.Cache.Shape.{WellFormed}
use cache_simulator.Cache.Residency.{Holds}
use cache_simulator.Cache.Invalidation.{invalidate_block-IsAbsent}
use cache_simulator.Cache.Writing.{access-requires_writeback}
use cache_simulator.Hierarchy.Access.{no_level}
use cache_simulator.Tests.Caches.{
  small, start, small-WellFormed, small_off, warmed, warmed-WellFormed,
}

invalidate_block-IsAbsent_example :
    WellFormed (invalidate_block warmed 100)
    × IsAbsent (invalidate_block warmed 100) 100
    × ((b k : ℕ)
        → Holds warmed b k
        → Holds (invalidate_block warmed 100) b k
          ⊎ (tag_of warmed b ≡ tag_of warmed 100)
            × (set_index_of warmed b ≡ set_index_of warmed 100))
invalidate_block-IsAbsent_example = invalidate_block-IsAbsent warmed 100 warmed-WellFormed

-- The small cache under write-through.
abbrev through : Cache
through = record small { write_policy = write_through }

through-IsAbsent : IsAbsent through 100
unfolding build find_way
through-IsAbsent = refl

access-requires_writeback_example :
    let c' = (Access.access no_level through 100 true none start).1 in
    (way : ℕ) × ((block_at c' (set_index_of through 100) way).tag ≡ tag_of through 100)
    × (requires_writeback (block_at c' (set_index_of through 100) way) ≡ true)
    × (c'.write_throughs ≡ through.write_throughs)
access-requires_writeback_example =
    access-requires_writeback no_level through 100 none start small-WellFormed small_off
      through-IsAbsent
