-- ===== src/Coherence.antt =====
-- The coherence protocols of src/core: MSI, MESI, MOESI, and what they have in common.
pub mod Table
pub mod Mesi
pub mod Msi
pub mod Moesi
pub mod Protocol
pub mod Safety
pub mod Snooping
