-- ===== src/Interconnect.antt =====
-- The interconnects of src/core/multiprocessor/interconnect.h and interconnect.cpp.
pub mod Message
pub mod Bus
pub mod Ring
pub mod Torus
pub mod Crossbar
pub mod Mesh
pub mod Mailboxes
pub mod Order
pub mod Factory
