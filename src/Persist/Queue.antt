-- ===== src/Persist/Queue.antt =====
-- ERServer/persist/PersistQueue.h: the queues between the simulation and the persistence thread.
-- Each operation holds the queue's mutex from its first line to its last, so that what other threads
-- see is some order of whole operations: a list of calls.
pub mod ZeroLoss
pub mod Bounded
mod Examples
use earth_rise_game.Prelude.{List}

-- A call of a producer or of the consumer.
pub data Call {ℓ} (T : Type ℓ) : Type ℓ where
  pushes : T → Call T
  drains : Call T
