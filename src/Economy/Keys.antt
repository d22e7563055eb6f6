-- ===== src/Economy/Keys.antt =====
-- NeuronCore/EconomyOutbox.h: the idempotency key of an economy event, and its outbox record.
pub mod Meeting
pub mod Unique
pub mod Events
mod Examples
use Prim.Native.String.{String}
use earth_rise_game.Prelude.Int.{ℤ, pos, pos_part, neg_part, sub_ℕ}
use earth_rise_game.Prelude.{ℕ, ◌*◌, ◌==◌, if◌then◌else◌, ◌/◌, ◌%◌, ◌^◌, bit_xor}

-- The word that the event's domain, net id and tick are folded into.
pub fold_event : ℕ → ℕ → ℕ → ℕ
fold_event domain net_id tick =
    bit_xor (bit_xor (domain * 0x9E3779B97F4A7C15 % 2 ^ 64) (net_id * 2 ^ 21 % 2 ^ 64)) tick

-- `OutboxIdemKey`: the word, scrambled.
pub outbox_idem_key : ℕ → ℕ → ℕ → ℕ
outbox_idem_key domain net_id tick =
    let z = fold_event domain net_id tick in
    let z' = bit_xor z (z / 2 ^ 30) * 0xBF58476D1CE4E5B9 % 2 ^ 64 in
    let z'' = bit_xor z' (z' / 2 ^ 27) * 0x94D049BB133111EB % 2 ^ 64 in bit_xor z'' (z'' / 2 ^ 31)

-- `enum class EconEventCode`.
abbrev pub loot_drop : ℕ
loot_drop = 0

abbrev pub loot_claim : ℕ
loot_claim = 1

abbrev pub killmail : ℕ
killmail = 2

abbrev pub cargo_lost : ℕ
cargo_lost = 3

-- `struct OutboxRecord`.
pub record OutboxRecord : Type 0 where
  pub idem_key : ℕ
  pub kind : ℕ
  pub amount : ℤ
  pub ref_id : ℤ
  pub reason : String
  pub ref_type : String

abbrev pub empty_record : OutboxRecord
empty_record = record {
  idem_key = 0;
  kind = 0;
  amount = pos 0;
  ref_id = pos 0;
  reason = "";
  ref_type = "";
}

-- `-static_cast<int64_t>(value)`.
abbrev pub negated : ℤ → ℤ
negated v = sub_ℕ (neg_part v) (pos_part v)

-- `MapEconEvent`. A code that the switch has no case for leaves the record as it was made.
unfoldable pub map_econ_event : ℕ → ℕ → ℕ → ℤ → ℕ → OutboxRecord
map_econ_event type_code a_net_id b_net_id amount tick =
    if type_code == loot_drop
    then record {
      idem_key = outbox_idem_key 1 a_net_id tick;
      kind = 6;
      amount = pos 0;
      ref_id = pos a_net_id;
      reason = "loot_drop";
      ref_type = "Loot";
    }
    else if type_code == loot_claim
    then record {
      idem_key = outbox_idem_key 2 a_net_id tick;
      kind = 3;
      amount = amount;
      ref_id = pos a_net_id;
      reason = "loot_claimed";
      ref_type = "Loot";
    }
    else if type_code == killmail
    then record {
      idem_key = outbox_idem_key 3 a_net_id tick;
      kind = 4;
      amount = amount;
      ref_id = pos a_net_id;
      reason = "bounty";
      ref_type = "Kill";
    }
    else if type_code == cargo_lost
    then record {
      idem_key = outbox_idem_key 4 a_net_id tick;
      kind = 5;
      amount = negated amount;
      ref_id = pos a_net_id;
      reason = "cargo_lost";
      ref_type = "Cargo";
    }
    else empty_record
