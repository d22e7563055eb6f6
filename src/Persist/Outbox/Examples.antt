-- ===== src/Persist/Outbox/Examples.antt =====
-- An outbox through a crash after a drain that was not confirmed.
use earth_rise_game.Prelude.{◌≡◌, refl, List, [], ◌∷◌, arith}
use earth_rise_game.Prelude.Int.{pos, negsuc, ◌+ℤ◌}
use earth_rise_game.Prelude.Maps.{lookup, insert}
use earth_rise_game.Prelude.Sets.{contains}
use earth_rise_game.Persist.Outbox.{
  wallet_delta, loot_claim, empty_state, balance, append, drain, drain_loop, offer, apply, commit,
  replay_all, drop_watermark_only, confirm_drained, pending_count, pending_loop,
}
use earth_rise_game.Persist.Outbox.Ledger.{IsBalanced}
use earth_rise_game.Persist.Outbox.Core.{core}
use earth_rise_game.Persist.Outbox.History.{
  Op, appends, drains, confirms, crashes, covered, AllCovered, step, run,
}
use earth_rise_game.Persist.Outbox.Reachable.{start}
use earth_rise_game.Persist.Outbox.ZeroLoss.{
  clean_run, replay_recovers, replay-drain, amount_sum, balance-drain, run-IsBalanced,
}

-- 100 to account 1, a drain, a debit of 30, a confirmation of the first event only, a drain whose
-- watermark is lost, and 5 to account 2.
abbrev history : List Op
history =
    appends 11 1 (pos 100) wallet_delta
    ∷ drains
    ∷ appends 12 1 (negsuc 29) wallet_delta
    ∷ confirms 1
    ∷ drains
    ∷ crashes
    ∷ appends 13 2 (pos 5) loot_claim
    ∷ []

history-AllCovered : AllCovered 0 start history
unfolding covered step append
history-AllCovered = (tt, (tt, (tt, (omega arith, (tt, (tt, (tt, tt)))))))

balance_example : balance (drain (run start history).0 (run start history).1).1 1 ≡ pos 70
unfolding run step append confirm_drained drain drain_loop offer apply commit balance insert lookup
    contains ◌+ℤ◌ drop_watermark_only
balance_example = refl

applied_example : (drain (run start history).0 (run start history).1).0 ≡ 1
unfolding run step append confirm_drained drain drain_loop offer apply commit balance insert lookup
    contains ◌+ℤ◌ drop_watermark_only
applied_example = refl

pending_example : pending_count (run start history).0 ≡ 2
unfolding run step append confirm_drained drain drain_loop pending_count pending_loop
pending_example = refl

-- An event that is confirmed before it was drained is not drained any more.
early_example :
    (drain (run start (appends 11 1 (pos 100) wallet_delta ∷ confirms 1 ∷ [])).0 empty_state).0 ≡ 0
unfolding run step append confirm_drained drain drain_loop offer
early_example = refl

replay_recovers_example :
    core (replay_all (run start history).0 (run start history).1).1
    ≡ core (clean_run (run start history).0)
replay_recovers_example = replay_recovers history (omega arith) history-AllCovered

replay-drain_example :
    let crashed = drop_watermark_only (drain (run start history).0 (run start history).1).1 in
    replay_all (run start history).0 crashed ≡ (0, crashed)
replay-drain_example = replay-drain history (omega arith) history-AllCovered

balance-drain_example :
    balance (drain (run start history).0 (run start history).1).1 1
    ≡ amount_sum 1 (run start history).0.log
unfolding run step append confirm_drained contains
balance-drain_example =
    balance-drain history 1 (omega arith) history-AllCovered (refl, (refl, (refl, tt)))

run-IsBalanced_example : IsBalanced (run start history).1
run-IsBalanced_example = run-IsBalanced history
