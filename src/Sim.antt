-- ===== src/Sim.antt =====
-- The simulation's replication to its clients.
pub mod Snapshot
pub mod Known
