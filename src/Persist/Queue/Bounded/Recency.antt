-- ===== src/Persist/Queue/Bounded/Recency.antt =====
-- What the bounded queue keeps: the newest items, and a count of the others.
use earth_rise_game.Prelude.{
  ℕ, max, ◌+◌, ◌-◌, ◌%◌, ◌^◌, ◌≤◌, ◌<◌, ◌≡◌, refl, ◌∙◌, true, false, List, [], ◌∷◌, ◌++◌, arith,
  leb, length, drop, length-append, length-drop, drop-drop, drop-append_left, Bool-cases, inl, inr,
}
use earth_rise_game.Persist.Queue.{Call, pushes, drains}
use earth_rise_game.Persist.Queue.Bounded.{
  BoundedQueue, new_queue, push, drop_oldest, drain_into, step, run,
}

-- What a consumer is promised: it gets the newest items that were pushed since its last drain.
pub record Promise {ℓ} (T : Type ℓ) : Type ℓ where
  pub taken : List T
  pub since : List T
  pub lost : ℕ

module _ {ℓ} {T : Type ℓ} where
  -- The last `most` items of a list, or all of it.
  unfoldable pub newest : ℕ → List T → List T
  newest most xs = drop (length xs - most) xs

  unfoldable pub promise_step : ℕ → Call T → Promise T → Promise T
  promise_step most (pushes item) p = record p { since = p.since ++ (item ∷ []) }
  promise_step most drains p = record {
    taken = p.taken ++ newest most p.since;
    since = [];
    lost = p.lost + (length p.since - most);
  }

  unfoldable pub promise_run : ℕ → List (Call T) → Promise T → Promise T
  promise_run most [] p = p
  promise_run most (c ∷ cs) p = promise_run most cs (promise_step most c p)

  -- The queue keeps the promise.
  abbrev pub Keeps : ℕ → List T × BoundedQueue T → Promise T → Type ℓ
  Keeps most (taken, q) p =
      (taken ≡ p.taken)
      × (q.buf ≡ newest most p.since)
      × (q.capacity ≡ most)
      × (q.dropped ≡ (p.lost + (length p.since - most)) % 2 ^ 64)

  length-newest :
      (most : ℕ) (xs : List T)
      → (length xs < most → length (newest most xs) < most)
        × (most ≤ length xs → length (newest most xs) ≡ most)
  unfolding newest
  length-newest most xs = (
    λ h. omega (arith, length-drop (length xs - most) xs),
    λ h. omega (arith, length-drop (length xs - most) xs),
  )

  newest_room :
      (most : ℕ) (xs : List T) (x : T)
      → length xs < most
      → newest most xs ++ (x ∷ []) ≡ newest most (xs ++ (x ∷ []))
  unfolding newest
  newest_room most xs x h =
      let before : length xs - most ≡ 0 = omega arith in
      let after : length (xs ++ (x ∷ [])) - most ≡ 0 = omega (arith, length-append xs (x ∷ [])) in
      rw (before, after) refl

  newest_full :
      (most : ℕ) (xs : List T) (x : T)
      → 0 < most
      → most ≤ length xs
      → drop 1 (newest most xs) ++ (x ∷ []) ≡ newest most (xs ++ (x ∷ []))
  unfolding newest
  newest_full most xs x some h =
      let after : length (xs ++ (x ∷ [])) - most ≡ length xs - most + 1 =
        omega (arith, length-append xs (x ∷ [])) in
      rw
        (
          after,
          drop-append_left (length xs - most + 1) xs (x ∷ []) (omega arith),
          drop-drop 1 (length xs - most) xs,
        )
        refl

  push_room :
      (x : T) (q : BoundedQueue T)
      → length q.buf < q.capacity
      → push x q ≡ (true, record q { buf = q.buf ++ (x ∷ []) })
  unfolding push
  push_room x q h = let test : leb q.capacity (length q.buf) ≡ false = ground arith in rw test refl

  push_full :
      (x : T) (q : BoundedQueue T)
      → length q.buf ≡ q.capacity
      → push x q
        ≡ (false, record q { buf = drop 1 q.buf ++ (x ∷ []); dropped = (q.dropped + 1) % 2 ^ 64 })
  unfolding push drop_oldest
  push_full x q h = let test : leb q.capacity (length q.buf) ≡ true = ground arith in rw test refl

  newest_nil : (most : ℕ) → [] ≡ newest most []
  newest_nil most = unfold newest in let none_left : 0 - most ≡ 0 = omega arith in rw none_left refl

  step-Keeps :
      (most : ℕ) (c : Call T) (taken : List T) (q : BoundedQueue T) (p : Promise T)
      → 0 < most
      → Keeps most (taken, q) p
      → Keeps most (step c (taken, q)) (promise_step most c p)
  unfolding step promise_step drain_into
  step-Keeps most drains taken q p pos (t, b, c, d) =
      (rw (t, b) refl, newest_nil most, c, d ∙ omega arith)
  step-Keeps most (pushes x) taken q p pos (t, b, c, d) =
      elim (Bool-cases (leb most (length p.since))) [
        | inl e ↦
            let many : most ≤ length p.since = ground arith in
            let full : length q.buf ≡ q.capacity =
              rw (b, c) ((length-newest most p.since).1 many) in
            rw (push_full x q full) (
              t,
              rw b (newest_full most p.since x pos many),
              c,
              rw d (omega (arith, length-append p.since (x ∷ []))),
            )
        | inr e ↦
            let few : length p.since < most = ground arith in
            let room : length q.buf < q.capacity = rw (b, c) ((length-newest most p.since).0 few) in
            rw (push_room x q room) (
              t,
              rw b (newest_room most p.since x few),
              c,
              rw d (omega (arith, length-append p.since (x ∷ []))),
            )
      ]

  run-Keeps :
      (most : ℕ) (cs : List (Call T)) (s : List T × BoundedQueue T) (p : Promise T)
      → 0 < most
      → Keeps most s p
      → Keeps most (run cs s) (promise_run most cs p)
  unfolding run promise_run
  run-Keeps most [] s p pos k = k
  run-Keeps most (c ∷ cs) (taken, q) p pos k =
      run-Keeps most cs (step c (taken, q)) (promise_step most c p) pos
        (step-Keeps most c taken q p pos k)

  abbrev pub no_promise : Promise T
  no_promise = record { taken = []; since = []; lost = 0 }

  -- Whatever pushes and drains are made of a new bounded queue, each drain hands over the newest items
  -- that were pushed since the drain before, as many as the capacity (1 if it is given as 0), oldest
  -- first; the queue never holds more than that, and the counter of dropped items is the number of
  -- the others, on 64 bits.
  pub run_refines :
      (capacity : ℕ) (cs : List (Call T))
      → let most = max 1 capacity in
        let p = promise_run most cs no_promise in
        let (taken, q) = run cs ([], new_queue capacity) in
        (taken ≡ p.taken)
        × (q.buf ≡ newest most p.since)
        × (length q.buf ≤ most)
        × (q.dropped ≡ (p.lost + (length p.since - most)) % 2 ^ 64)
  run_refines capacity cs =
      let most : ℕ = max 1 capacity in
      let (t, b, c, d) : Keeps most (run cs ([], new_queue capacity))
          (promise_run most cs no_promise) =
        run-Keeps most cs _ no_promise (omega arith) (fresh most capacity refl) in
      (t, b, rw b (short most _), d)
    where
      fresh :
          (most capacity : ℕ)
          → most ≡ max 1 capacity
          → Keeps most ([], new_queue capacity) no_promise
      fresh most capacity e = unfold new_queue in (refl, newest_nil most, ground arith, omega arith)

      short : (most : ℕ) (xs : List T) → length (newest most xs) ≤ most
      short most xs = unfold newest in omega (arith, length-drop (length xs - most) xs)
