-- ===== src/Economy.antt =====
-- How economy events of the simulation become outbox records.
pub mod Keys
