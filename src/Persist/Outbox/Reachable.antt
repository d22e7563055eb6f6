-- ===== src/Persist/Outbox/Reachable.antt =====
-- What holds after any history: the state and the log stay in step.
use earth_rise_game.Prelude.{
  ℕ, ◌+◌, ◌%◌, ◌^◌, ◌≤◌, ◌<◌, ◌≡◌, refl, ap, ◌∙◌, sym, List, [], ◌∷◌, ◌++◌, arith, ltb, length,
  length-append, append_assoc, Bool-cases, inl, inr,
}
use earth_rise_game.Prelude.Int.{ℤ}
use earth_rise_game.Persist.Outbox.{
  EconomyEvent, EconomyEventType, EconomyState, Outbox, empty_state, empty_outbox, append, drain,
  replay_all, drop_watermark_only, confirm_drained,
}
use earth_rise_game.Persist.Outbox.Ledger.{
  IsBalanced, empty_state-IsBalanced, drop_watermark_only-IsBalanced,
}
use earth_rise_game.Persist.Outbox.Core.{settle_all}
use earth_rise_game.Persist.Outbox.History.{
  Op, Pair, step, run, InStep, append-Numbered, drain-IsBalanced, replay_all-IsBalanced, appends,
  drains, confirms, replays, crashes, covered, IsCovered, AllCovered, drained, replayed,
  InStep-after,
}

confirm-InStep :
    (done upto : ℕ) (box : Outbox) (st : EconomyState)
    → upto ≤ done
    → InStep done (box, st)
    → InStep done (confirm_drained upto box, st)
unfolding confirm_drained
confirm-InStep done upto box st ok v = elim (Bool-cases (ltb box.drain_watermark upto)) [
  | inr old ↦ rw (old, confirm_drained) v
  | inl more ↦
      rw (more, confirm_drained)
        (record {
          settled = v.settled;
          pending = v.pending;
          log = v.log;
          numbered = v.numbered;
          next = v.next;
          state = v.state;
          watermark = omega (arith, ok, v.covers);
          last = v.last;
          covers = v.covers;
          balanced = v.balanced;
        })
]

crash-InStep :
    (done : ℕ) (box : Outbox) (st : EconomyState)
    → InStep done (box, st)
    → InStep done (box, drop_watermark_only st)
unfolding drop_watermark_only
crash-InStep done box st v = record {
  settled = v.settled;
  pending = v.pending;
  log = v.log;
  numbered = v.numbered;
  next = v.next;
  state = v.state;
  watermark = v.watermark;
  last = omega arith;
  covers = v.covers;
  balanced = drop_watermark_only-IsBalanced st v.balanced;
}

append-InStep :
    (done : ℕ) (box : Outbox) (st : EconomyState) (key account : ℕ) (amount : ℤ)
    (kind : EconomyEventType)
    → length box.log + 1 < 2 ^ 64
    → InStep done (box, st)
    → InStep done ((append key account amount kind box).1, st)
unfolding append
append-InStep done box st key account amount kind room v =
    let seq : ℕ = (box.next_seq + 1) % 2 ^ 64 in
    let e : EconomyEvent = record {
      seq = seq;
      idem_key = key;
      account_id = account;
      amount = amount;
      kind = kind;
    } in
    let next : seq ≡ length box.log + 1 = omega (arith, v.next) in
    record {
      settled = v.settled;
      pending = v.pending ++ (e ∷ []);
      log = ap (λ t. t ++ (e ∷ [])) v.log ∙ append_assoc v.settled v.pending (e ∷ []);
      numbered = append-Numbered 0 box.log e v.numbered (omega arith);
      next = next ∙ sym (length-append box.log (e ∷ []) ∙ omega arith);
      state = v.state;
      watermark = v.watermark;
      last = v.last;
      covers = v.covers;
      balanced = v.balanced;
    }

step-InStep :
    (done : ℕ) (p : Pair) (o : Op)
    → length p.0.log + 1 < 2 ^ 64
    → IsCovered done o
    → InStep done p
    → InStep (covered done p o) (step p o)
unfolding step covered
step-InStep done (box, st) (appends key account amount kind) room ok v =
    append-InStep done box st key account amount kind room v
step-InStep done (box, st) drains room ok v =
    let (state, last) = drained done box st v in
    InStep-after done box st v (drain box st).1 state last (drain-IsBalanced box st v.balanced)
step-InStep done (box, st) replays room ok v =
    let (state, last) = replayed done box st v in
    InStep-after done box st v (replay_all box st).1 state last
      (replay_all-IsBalanced box st v.balanced)
step-InStep done (box, st) (confirms upto) room ok v = confirm-InStep done upto box st ok v
step-InStep done (box, st) crashes room ok v = crash-InStep done box st v

length-step : (p : Pair) (o : Op) → length (step p o).0.log ≤ length p.0.log + 1
unfolding step append confirm_drained
length-step (box, st) (appends key account amount kind) =
    omega (arith, length-append {0} {A = EconomyEvent})
length-step (box, st) drains = omega arith
length-step (box, st) (confirms upto) = ground arith
length-step (box, st) replays = omega arith
length-step (box, st) crashes = omega arith

-- What the history has covered in the end.
pub last_covered : ℕ → Pair → List Op → ℕ
last_covered done p [] = done
last_covered done p (o ∷ os) = last_covered (covered done p o) (step p o) os

run-InStep_from :
    (os : List Op) (done : ℕ) (p : Pair)
    → length p.0.log + length os < 2 ^ 64
    → AllCovered done p os
    → InStep done p
    → InStep (last_covered done p os) (run p os)
unfolding run last_covered
run-InStep_from [] done p room ok v = v
run-InStep_from (o ∷ os) done p room ok v =
    run-InStep_from os (covered done p o) (step p o) (omega (arith, length-step p o)) ok.1
      (step-InStep done p o (omega arith) ok.0 v)

abbrev pub start : Pair
start = (empty_outbox, empty_state)

start-InStep : InStep 0 start
start-InStep = record {
  settled = [];
  pending = [];
  log = refl;
  numbered = tt;
  next = refl;
  state = unfold settle_all in refl;
  watermark = omega arith;
  last = omega arith;
  covers = omega arith;
  balanced = empty_state-IsBalanced;
}

-- Fewer than 2 ^ 64 calls leave every pair in step, when `ConfirmDrained` is called as it asks.
pub run-InStep :
    (os : List Op)
    → length os < 2 ^ 64
    → AllCovered 0 start os
    → InStep (last_covered 0 start os) (run start os)
run-InStep os room ok = run-InStep_from os 0 start (omega arith) ok start-InStep

step-IsBalanced : (p : Pair) (o : Op) → IsBalanced p.1 → IsBalanced (step p o).1
unfolding step
step-IsBalanced (box, st) (appends key account amount kind) v = v
step-IsBalanced (box, st) (confirms upto) v = v
step-IsBalanced (box, st) drains v = drain-IsBalanced box st v
step-IsBalanced (box, st) replays v = replay_all-IsBalanced box st v
step-IsBalanced (box, st) crashes v = drop_watermark_only-IsBalanced st v

-- Every call keeps the ledger balanced, also a confirmation that comes too early.
pub run-IsBalanced_from : (os : List Op) (p : Pair) → IsBalanced p.1 → IsBalanced (run p os).1
unfolding run
run-IsBalanced_from [] p v = v
run-IsBalanced_from (o ∷ os) p v = run-IsBalanced_from os (step p o) (step-IsBalanced p o v)
