-- ===== src/Prefetch.antt =====
-- The prefetching components of src/core.
pub mod StreamBuffer
pub mod Adaptive
pub mod StridePredictor
pub mod Capacity
pub mod Learning
pub mod Tuning
