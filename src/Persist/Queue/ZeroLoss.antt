-- ===== src/Persist/Queue/ZeroLoss.antt =====
-- `MpscZeroLossQueue`. The mutex leaves one field: `m_buf`.
pub mod Delivery
use earth_rise_game.Prelude.{ℕ, ◌+◌, List, [], ◌∷◌, ◌++◌, length}
use earth_rise_game.Persist.Queue.{Call, pushes, drains}

pub record ZeroLossQueue {ℓ} (T : Type ℓ) : Type ℓ where
  pub buf : List T

module _ {ℓ} {T : Type ℓ} where
  abbrev pub empty_queue : ZeroLossQueue T
  empty_queue = record { buf = [] }

  -- `Push`: the new depth, and the queue.
  pub push : T → ZeroLossQueue T → ℕ × ZeroLossQueue T
  push item q = let buf' = q.buf ++ (item ∷ []) in (length buf', record q { buf = buf' })

  -- `DrainInto`: what `out` holds afterwards, and the queue. `out` is cleared before the swap.
  pub drain_into : List T → ZeroLossQueue T → List T × ZeroLossQueue T
  drain_into out q = (q.buf, record q { buf = [] })

  -- `Depth`.
  pub depth : ZeroLossQueue T → ℕ
  depth q = length q.buf

  -- The queue, and what the consumer has taken so far, oldest first. It drains into the same vector
  -- each time.
  pub step : Call T → List T × List T × ZeroLossQueue T → List T × List T × ZeroLossQueue T
  step (pushes item) (taken, out, q) = (taken, out, (push item q).1)
  step drains (taken, out, q) = let (out', q') = drain_into out q in (taken ++ out', out', q')

  pub run : List (Call T) → List T × List T × ZeroLossQueue T → List T × List T × ZeroLossQueue T
  run [] s = s
  run (c ∷ cs) s = run cs (step c s)
