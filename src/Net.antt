-- ===== src/Net.antt =====
-- The transport under NeuronCore: sequence numbers, replay protection, reliability, framing and
-- the routing of datagrams to connections.
pub mod Sequence
pub mod Replay
pub mod Codec
pub mod Handshake
pub mod Routing
pub mod Reliable
