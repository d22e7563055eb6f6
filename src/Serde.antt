-- ===== src/Serde.antt =====
-- The bit-packed wire encoding of snapshots and commands.
pub mod BitStream
pub mod Buffer
pub mod Parser
