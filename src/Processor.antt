-- ===== src/Processor.antt =====
-- The processor cores and the multi-processor system of src/core/multiprocessor/processor_core.h and .cpp.
pub mod Core
pub mod System
pub mod Barrier
pub mod Soundness
pub mod Broadcast
