-- ===== src/Persist.antt =====
-- What makes the world durable: the economy outbox and the queues in front of the database.
pub mod Outbox
pub mod Queue
pub mod Restart
