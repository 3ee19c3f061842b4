-- ===== src/Replacement.antt =====
-- src/core/replacement_policy.h: the replacement policies of one cache set.
pub mod Lru
pub mod Fifo
pub mod Random
pub mod Nru
pub mod Plru
pub mod Policy
pub mod Choice
