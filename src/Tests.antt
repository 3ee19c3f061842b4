-- ===== src/Tests.antt =====
-- Runs of the definitions on concrete inputs, and the theorems at inputs where their conditions hold.
pub mod Caches
pub mod Changes
pub mod Policies
pub mod Coherent
pub mod Parts
pub mod Network
pub mod Machine
pub mod Traces
pub mod Configs
pub mod Runs
pub mod Spelling
