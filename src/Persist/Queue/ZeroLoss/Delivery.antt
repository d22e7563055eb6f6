-- ===== src/Persist/Queue/ZeroLoss/Delivery.antt =====
-- No loss: what goes into the economy queue comes out of it, in order.
use earth_rise_game.Prelude.{◌≡◌, refl, ap, sym, ◌∙◌, List, [], ◌∷◌, ◌++◌, append-nil, append_assoc}
use earth_rise_game.Persist.Queue.{Call, pushes, drains}
use earth_rise_game.Persist.Queue.ZeroLoss.{
  ZeroLossQueue, empty_queue, push, drain_into, depth, step, run,
}

module _ {ℓ} {T : Type ℓ} where
  -- The items that the calls push, in the order of the calls.
  unfoldable pub pushed : List (Call T) → List T
  pushed [] = []
  pushed (pushes item ∷ cs) = item ∷ pushed cs
  pushed (drains ∷ cs) = pushed cs

  run_from :
      (cs : List (Call T)) (taken out : List T) (q : ZeroLossQueue T)
      → let (taken', _, q') = run cs (taken, out, q) in
        taken' ++ q'.buf ≡ (taken ++ q.buf) ++ pushed cs
  unfolding run step push drain_into pushed
  run_from [] taken out q = sym (append-nil _)
  run_from (pushes item ∷ cs) taken out q =
      run_from cs taken out (push item q).1
      ∙ ap (λ (xs : List T). xs ++ pushed cs) (sym (append_assoc taken q.buf (item ∷ [])))
      ∙ append_assoc (taken ++ q.buf) (item ∷ []) (pushed cs)
  run_from (drains ∷ cs) taken out q =
      run_from cs (taken ++ q.buf) q.buf (record { buf = [] })
      ∙ ap (λ (xs : List T). xs ++ pushed cs) (append-nil (taken ++ q.buf))

  -- Whatever pushes and drains are made of an empty economy queue, and in whatever order, what the
  -- consumer has taken, followed by what is still in the queue, is what was pushed, in order; one
  -- more drain hands over all of it.
  pub run-pushed :
      (cs : List (Call T)) (out : List T)
      → let (taken, last, q) = run cs ([], out, empty_queue) in
        (taken ++ q.buf ≡ pushed cs)
        × ((step drains (taken, last, q)).0 ≡ pushed cs)
        × (depth (drain_into last q).1 ≡ 0)
  unfolding step drain_into depth
  run-pushed cs out = (run_from cs [] out empty_queue, run_from cs [] out empty_queue, refl)
