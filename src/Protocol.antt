-- ===== src/Protocol.antt =====
-- protocol.hpp: the heads of the messages, the packed structs that they carry, and the proofs that
-- each member is read back at its offset.
pub mod Heads
pub mod Structs
pub mod Builders
pub mod Readers
pub mod Offsets
