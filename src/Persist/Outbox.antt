-- ===== src/Persist/Outbox.antt =====
-- NeuronCore/Outbox.h: economy events in an ordered log, drained idempotently into the wallets and
-- the ledger. An `int64_t` amount is an integer: the source has no wrap-around here, since signed
-- overflow is undefined.
pub mod Ledger
pub mod Core
pub mod History
pub mod Reachable
pub mod ZeroLoss
mod Examples
use earth_rise_game.Prelude.{
  ℕ, zero, suc, ◌+◌, ◌%◌, ◌^◌, Bool, true, false, ◌&&◌, List, [], ◌∷◌, ◌++◌, Option, none, some,
  ltb, leb, if◌then◌else◌, length,
}
use earth_rise_game.Prelude.Int.{ℤ, pos, ◌+ℤ◌}
use earth_rise_game.Prelude.Maps.{lookup, insert}
use earth_rise_game.Prelude.Sets.{contains}

-- `enum class EconomyEventType`.
pub data EconomyEventType : Type 0 where
  wallet_delta build_complete inventory_delta loot_claim : EconomyEventType

-- `struct EconomyEvent`.
pub record EconomyEvent : Type 0 where
  pub seq : ℕ
  pub idem_key : ℕ
  pub account_id : ℕ
  pub amount : ℤ
  pub kind : EconomyEventType

-- `struct LedgerEntry`.
pub record LedgerEntry : Type 0 where
  pub seq : ℕ
  pub idem_key : ℕ
  pub account_id : ℕ
  pub delta : ℤ
  pub balance_after : ℤ

-- `class EconomyState`.
pub record EconomyState : Type 0 where
  pub wallet : List (ℕ × ℤ)
  pub ledger : List LedgerEntry
  pub applied_keys : List ℕ
  pub last_applied_seq : ℕ

abbrev pub empty_state : EconomyState
empty_state = record { wallet = []; ledger = []; applied_keys = []; last_applied_seq = 0 }

-- `Balance`: what `m_wallet[id]` holds, 0 where there is no entry.
pub balance : EconomyState → ℕ → ℤ
balance st account = elim (lookup account st.wallet) [ none ↦ pos 0 | some v ↦ v ]

-- The writes of `Apply`, behind its three tests.
pub commit : EconomyEvent → EconomyState → EconomyState
commit e st =
    let after = balance st e.account_id +ℤ e.amount in
    record {
      wallet = insert e.account_id after st.wallet;
      ledger =
          st.ledger
          ++ (record {
            seq = e.seq;
            idem_key = e.idem_key;
            account_id = e.account_id;
            delta = e.amount;
            balance_after = after;
          }
              ∷ []);
      applied_keys = e.idem_key ∷ st.applied_keys;
      last_applied_seq = if ltb st.last_applied_seq e.seq then e.seq else st.last_applied_seq;
    }

-- `Apply`.
pub apply : EconomyEvent → Bool → EconomyState → Bool × EconomyState
apply e inject_failure st =
    if leb e.seq st.last_applied_seq
    then (false, st)
    else if contains e.idem_key st.applied_keys
    then (false, st)
    else if inject_failure
    then (false, st)
    else (true, commit e st)

-- `DropWatermarkOnly`.
pub drop_watermark_only : EconomyState → EconomyState
drop_watermark_only st = record st { last_applied_seq = 0 }

-- `class Outbox`.
pub record Outbox : Type 0 where
  pub log : List EconomyEvent
  pub next_seq : ℕ
  pub drain_watermark : ℕ

abbrev pub empty_outbox : Outbox
empty_outbox = record { log = []; next_seq = 0; drain_watermark = 0 }

-- `Append`: the new sequence number, and the outbox.
pub append : ℕ → ℕ → ℤ → EconomyEventType → Outbox → ℕ × Outbox
append idem_key account_id amount kind box =
    let seq = (box.next_seq + 1) % 2 ^ 64 in
    let e : EconomyEvent = record {
      seq = seq;
      idem_key = idem_key;
      account_id = account_id;
      amount = amount;
      kind = kind;
    } in
    (seq, record box { log = box.log ++ (e ∷ []); next_seq = seq })

-- `PendingCount`.
pub pending_loop : ℕ → List EconomyEvent → ℕ
pending_loop watermark [] = 0
pending_loop watermark (e ∷ es) = (if ltb watermark e.seq then 1 else 0) + pending_loop watermark es

pub pending_count : Outbox → ℕ
pending_count box = pending_loop box.drain_watermark box.log

-- `e.seq > m_drainWatermark && state.Apply(e)`, with the state after it.
pub offer : ℕ → EconomyEvent → EconomyState → Bool × EconomyState
offer watermark e st = if ltb watermark e.seq then apply e false st else (false, st)

-- The loop of `Drain` over the events that are left, with the count so far.
pub drain_loop : ℕ → List EconomyEvent → ℕ → EconomyState → ℕ × EconomyState
drain_loop watermark [] applied st = (applied, st)
drain_loop watermark (e ∷ es) applied st =
    let (newly, st') = offer watermark e st in
    drain_loop watermark es (if newly then applied + 1 else applied) st'

-- `Drain`.
pub drain : Outbox → EconomyState → ℕ × EconomyState
drain box st = drain_loop box.drain_watermark box.log 0 st

-- `ReplayAll`: the same loop with no test of the watermark.
pub replay_loop : List EconomyEvent → ℕ → EconomyState → ℕ × EconomyState
replay_loop [] applied st = (applied, st)
replay_loop (e ∷ es) applied st =
    let (newly, st') = apply e false st in
    replay_loop es (if newly then applied + 1 else applied) st'

pub replay_all : Outbox → EconomyState → ℕ × EconomyState
replay_all box st = replay_loop box.log 0 st

-- `ConfirmDrained`.
pub confirm_drained : ℕ → Outbox → Outbox
confirm_drained upto box =
    if ltb box.drain_watermark upto then record box { drain_watermark = upto } else box
