-- ===== src/VictimCache.antt =====
-- The victim cache of src/core/victim_cache.h.
pub mod State
pub mod Slots
pub mod RoundTrip
pub mod Accounting
