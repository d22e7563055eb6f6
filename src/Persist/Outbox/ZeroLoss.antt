-- ===== src/Persist/Outbox/ZeroLoss.antt =====
-- Zero loss and no double credit: what the outbox promises across crashes.
use earth_rise_game.Prelude.{
  ℕ, ◌^◌, ◌<◌, ◌≡◌, refl, ap, ◌∙◌, sym, false, List, [], ◌∷◌, arith, ◌==◌, if◌then◌else◌, length,
}
use earth_rise_game.Prelude.Int.{ℤ, pos, ◌+ℤ◌, +ℤ_assoc, +ℤ_comm, zero-+ℤ}
use earth_rise_game.Prelude.Sets.{contains}
use earth_rise_game.Persist.Outbox.{
  EconomyEvent, EconomyState, Outbox, empty_state, balance, drain, replay_all, drop_watermark_only,
  commit,
}
use earth_rise_game.Persist.Outbox.Ledger.{
  IsBalanced, empty_state-IsBalanced, ledger_sum, ledger_sum-append,
}
use earth_rise_game.Persist.Outbox.Core.{
  Core, core, settle, settle_all, settle_all-Known, Numbered, replay_loop-Known, drain_loop_next,
}
use earth_rise_game.Persist.Outbox.History.{
  Op, run, AllCovered, no_core, InStep, drained, replayed, drain-IsBalanced,
}
use earth_rise_game.Persist.Outbox.Reachable.{start, last_covered, run-InStep, run-IsBalanced_from}

-- A drain of the whole log into a state that has seen nothing.
abbrev pub clean_run : Outbox → EconomyState
clean_run box = (drain (record box { drain_watermark = 0 }) empty_state).1

clean_run_lem :
    (box : Outbox) → Numbered 0 box.log → core (clean_run box) ≡ settle_all box.log no_core
unfolding drain
clean_run_lem box num =
    (drain_loop_next 0 box.log 0 0 empty_state num (omega arith) (omega arith)).0

-- After any history of fewer than 2 ^ 64 calls, crashes among them, in which ConfirmDrained confirms
-- no event that a committed drain or replay has not covered, a replay of the log leaves the wallets,
-- the ledger and the applied keys that one uninterrupted drain of the log into an empty state leaves.
pub replay_recovers :
    (os : List Op)
    → length os < 2 ^ 64
    → AllCovered 0 start os
    → let (box, st) = run start os in core (replay_all box st).1 ≡ core (clean_run box)
replay_recovers os room ok =
    let v : InStep (last_covered 0 start os) (run start os) = run-InStep os room ok in
    (replayed _ (run start os).0 (run start os).1 v).0
    ∙ sym (clean_run_lem (run start os).0 v.numbered)

-- So does a drain from the outbox's own watermark.
pub drain_recovers :
    (os : List Op)
    → length os < 2 ^ 64
    → AllCovered 0 start os
    → let (box, st) = run start os in core (drain box st).1 ≡ core (clean_run box)
drain_recovers os room ok =
    let v : InStep (last_covered 0 start os) (run start os) = run-InStep os room ok in
    (drained _ (run start os).0 (run start os).1 v).0
    ∙ sym (clean_run_lem (run start os).0 v.numbered)

-- After any history of fewer than 2 ^ 64 calls in which ConfirmDrained confirms no event that a
-- committed drain or replay has not covered, and a drain, a replay of the whole log applies nothing
-- and changes nothing, even when the state has lost its watermark.
pub replay-drain :
    (os : List Op)
    → length os < 2 ^ 64
    → AllCovered 0 start os
    → let (box, st) = run start os in
      let crashed = drop_watermark_only (drain box st).1 in replay_all box crashed ≡ (0, crashed)
unfolding replay_all drop_watermark_only
replay-drain os room ok =
    let box : Outbox = (run start os).0 in
    let st : EconomyState = (run start os).1 in
    let v : InStep (last_covered 0 start os) (box, st) = run-InStep os room ok in
    let keys : (drain box st).1.applied_keys ≡ (settle_all box.log no_core).applied_keys =
      ap (λ (c : Core). c.applied_keys) (drained _ box st v).0 in
    replay_loop-Known box.log 0 _ (rw keys (settle_all-Known box.log no_core))

-- The amounts of an account's events, added up.
unfoldable pub amount_sum : ℕ → List EconomyEvent → ℤ
amount_sum account [] = pos 0
amount_sum account (e ∷ es) =
    if e.account_id == account then e.amount +ℤ amount_sum account es else amount_sum account es

-- None of the events has one of the keys, and no two have the same one.
abbrev pub Fresh : List ℕ → List EconomyEvent → Type 0
Fresh keys [] = Unit
Fresh keys (e ∷ es) = (contains e.idem_key keys ≡ false) × Fresh (e.idem_key ∷ keys) es

ledger_sum-settle :
    (account : ℕ) (e : EconomyEvent) (c : Core)
    → contains e.idem_key c.applied_keys ≡ false
    → (ledger_sum account (settle e c).ledger ≡ (
        if e.account_id == account
        then ledger_sum account c.ledger +ℤ e.amount
        else ledger_sum account c.ledger))
      × ((settle e c).applied_keys ≡ e.idem_key ∷ c.applied_keys)
unfolding settle commit
ledger_sum-settle account e c new = rw new (ledger_sum-append account c.ledger _, refl)

ledger_sum-settle_all :
    (account : ℕ) (es : List EconomyEvent) (c : Core)
    → Fresh c.applied_keys es
    → ledger_sum account (settle_all es c).ledger
      ≡ ledger_sum account c.ledger +ℤ amount_sum account es
unfolding settle_all amount_sum
ledger_sum-settle_all account [] c f =
    sym (+ℤ_comm (ledger_sum account c.ledger) (pos 0) ∙ zero-+ℤ (ledger_sum account c.ledger))
ledger_sum-settle_all account (e ∷ es) c f =
    let (sum, keys) = ledger_sum-settle account e c f.0 in
    let rest : ledger_sum account (settle_all es (settle e c)).ledger
        ≡ ledger_sum account (settle e c).ledger +ℤ amount_sum account es =
      ledger_sum-settle_all account es (settle e c) (rw keys f.1) in
    ground
      (arith, rest, sum, +ℤ_assoc (ledger_sum account c.ledger) e.amount (amount_sum account es))

-- If the events were appended with pairwise distinct keys, then after any history of fewer than
-- 2 ^ 64 calls (appends, drains, replays, confirmations, and crashes that lose the state's watermark)
-- in which ConfirmDrained confirms no event that a committed drain or replay has not covered, and one
-- more drain, the balance of every account is the sum of the amounts of its events, as integers
-- without a bound: no event is lost, and none is credited twice.
pub balance-drain :
    (os : List Op) (account : ℕ)
    → length os < 2 ^ 64
    → AllCovered 0 start os
    → Fresh [] (run start os).0.log
    → let (box, st) = run start os in balance (drain box st).1 account ≡ amount_sum account box.log
balance-drain os account room ok fresh =
    let box : Outbox = (run start os).0 in
    let st : EconomyState = (run start os).1 in
    let v : InStep (last_covered 0 start os) (box, st) = run-InStep os room ok in
    let ledgers : (drain box st).1.ledger ≡ (settle_all box.log no_core).ledger =
      ap (λ (c : Core). c.ledger) (drained _ box st v).0 in
    let none_yet : ledger_sum account [] ≡ pos 0 = unfold ledger_sum in refl in
    (drain-IsBalanced box st v.balanced).sums account
    ∙ ap (ledger_sum account) ledgers
    ∙ ledger_sum-settle_all account box.log no_core fresh
    ∙ rw none_yet (zero-+ℤ (amount_sum account box.log))

-- After any history of calls, confirmations of any number among them, each balance is the sum of the
-- account's ledger entries, each entry carries the balance that it left, and no key stands twice in
-- the ledger.
pub run-IsBalanced : (os : List Op) → IsBalanced (run start os).1
run-IsBalanced os = run-IsBalanced_from os start empty_state-IsBalanced
