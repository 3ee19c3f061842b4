-- ===== src/Cache.antt =====
-- src/core/cache.h, src/core/cache_block.h and src/core/cache.cpp: one level of the hierarchy.
pub mod Config
pub mod State
pub mod Lookup
pub mod Access
pub mod Maintain
pub mod Shape
pub mod Invariant
pub mod Address
pub mod Create
pub mod Counters
pub mod Tags
pub mod Residency
pub mod Retention
pub mod Levels
pub mod Invalidation
pub mod Writing
pub mod Warming
