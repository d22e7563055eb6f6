-- ===== src/Persist/Queue/Bounded.antt =====
-- `MpscBoundedQueue`, which drops its oldest items.
pub mod Recency
use earth_rise_game.Prelude.{
  ℕ, ◌+◌, ◌%◌, ◌^◌, Bool, true, false, not, List, [], ◌∷◌, ◌++◌, leb, ◌==◌, if◌then◌else◌, length,
  drop,
}
use earth_rise_game.Persist.Queue.{Call, pushes, drains}

pub record BoundedQueue {ℓ} (T : Type ℓ) : Type ℓ where
  pub buf : List T
  pub capacity : ℕ
  pub dropped : ℕ

module _ {ℓ} {T : Type ℓ} where
  -- The constructor: a capacity of 0 is taken for 1.
  pub new_queue : ℕ → BoundedQueue T
  new_queue capacity = record {
    buf = [];
    capacity = if capacity == 0 then 1 else capacity;
    dropped = 0;
  }

  -- `m_buf.erase(m_buf.begin())` and `++m_dropped`, on 64 bits.
  pub drop_oldest : BoundedQueue T → BoundedQueue T
  drop_oldest q = record q { buf = drop 1 q.buf; dropped = (q.dropped + 1) % 2 ^ 64 }

  -- `Push`: whether nothing was dropped, and the queue.
  pub push : T → BoundedQueue T → Bool × BoundedQueue T
  push item q =
      let full = leb q.capacity (length q.buf) in
      let q' = if full then drop_oldest q else q in
      (not full, record q' { buf = q'.buf ++ (item ∷ []) })

  -- `DrainInto`: what `out` holds afterwards, and the queue.
  pub drain_into : List T → BoundedQueue T → List T × BoundedQueue T
  drain_into out q = (q.buf, record q { buf = [] })

  -- `Depth`.
  pub depth : BoundedQueue T → ℕ
  depth q = length q.buf

  -- The queue, and what the consumer has taken so far, oldest first.
  pub step : Call T → List T × BoundedQueue T → List T × BoundedQueue T
  step (pushes item) (taken, q) = (taken, (push item q).1)
  step drains (taken, q) = let (out, q') = drain_into taken q in (taken ++ out, q')

  pub run : List (Call T) → List T × BoundedQueue T → List T × BoundedQueue T
  run [] s = s
  run (c ∷ cs) s = run cs (step c s)

  -- `Push` of each item in turn.
  pub push_all : List T → BoundedQueue T → BoundedQueue T
  push_all [] q = q
  push_all (item ∷ items) q = push_all items (push item q).1
