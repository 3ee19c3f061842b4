-- ===== src/Hierarchy.antt =====
-- The memory hierarchy of src/core/memory_hierarchy.h and src/core/memory_hierarchy.cpp.
pub mod State
pub mod Access
pub mod Steps
pub mod Invariant
pub mod Traffic
