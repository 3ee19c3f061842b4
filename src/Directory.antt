-- ===== src/Directory.antt =====
-- The directory-based coherence controller of src/core/multiprocessor/coherence_controller.h and .cpp.
pub mod State
pub mod Requests
pub mod Ownership
pub mod Writers
pub mod Readers
