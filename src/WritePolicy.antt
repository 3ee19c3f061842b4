-- ===== src/WritePolicy.antt =====
-- src/core/write_policy.h and src/core/write_policy.cpp: the write policies and the write-combining buffer.
pub mod Policies
pub mod Combining
pub mod Buffered
pub mod Forwarding
