-- ===== src/Persist/Queue/Examples.antt =====
-- Runs of the queues on concrete items.
use earth_rise_game.Prelude.{
  ℕ, ◌+◌, ◌-◌, ◌%◌, ◌^◌, ◌≤◌, max, ◌≡◌, refl, List, [], ◌∷◌, ◌++◌, length,
}
use earth_rise_game.Persist.Queue.{Call, pushes, drains}
use earth_rise_game.Persist.Queue.ZeroLoss
use earth_rise_game.Persist.Queue.Bounded
use earth_rise_game.Persist.Queue.ZeroLoss.Delivery.{pushed, run-pushed}
use earth_rise_game.Persist.Queue.Bounded.Recency.{newest, promise_run, no_promise, run_refines}

abbrev some_calls : List (Call ℕ)
some_calls = pushes 1 ∷ pushes 2 ∷ pushes 3 ∷ drains ∷ pushes 4 ∷ []

run-pushed_example :
    let (taken, last, q) = ZeroLoss.run some_calls ([], 9 ∷ [], ZeroLoss.empty_queue) in
    (taken ++ q.buf ≡ pushed some_calls)
    × ((ZeroLoss.step drains (taken, last, q)).0 ≡ pushed some_calls)
    × (ZeroLoss.depth (ZeroLoss.drain_into last q).1 ≡ 0)
run-pushed_example = run-pushed some_calls (9 ∷ [])

run_refines_example :
    let most = max 1 2 in
    let p = promise_run most some_calls no_promise in
    let (taken, q) = Bounded.run some_calls ([], Bounded.new_queue 2) in
    (taken ≡ p.taken)
    × (q.buf ≡ newest most p.since)
    × (length q.buf ≤ most)
    × (q.dropped ≡ (p.lost + (length p.since - most)) % 2 ^ 64)
run_refines_example = run_refines 2 some_calls

promise_drops_one : (promise_run 2 some_calls no_promise).taken ≡ 2 ∷ 3 ∷ []
unfolding promise_run earth_rise_game.Persist.Queue.Bounded.Recency.promise_step newest
promise_drops_one = refl
