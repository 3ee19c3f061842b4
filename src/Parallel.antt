-- ===== src/Parallel.antt =====
-- The parallel runs of src/utils/parallel_executor.h.
pub mod Pool
pub mod Deadlock
pub mod Counting
pub mod Chunks
pub mod Totals
