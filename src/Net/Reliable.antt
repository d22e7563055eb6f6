-- ===== src/Net/Reliable.antt =====
-- NeuronCore/Reliability.h: one reliable channel. The receiver is here; the sender is in
-- Net/Reliable/Sender.
pub mod Sender
pub mod Receiving
pub mod AckBits
mod Examples
use earth_rise_game.Prelude.{
  ℕ, zero, suc, ◌+◌, ◌-◌, ◌%◌, ◌^◌, bit_or, Bool, true, false, List, [], ◌∷◌, ltb, if◌then◌else◌,
}
use earth_rise_game.Prelude.Int.{ℤ, pos, negsuc}
use earth_rise_game.Prelude.Sets.{contains}
use earth_rise_game.Net.Sequence.{seq_greater, seq_diff}

-- `class ReliableReceiver`. The order of the set is never observed.
pub record ReliableReceiver : Type 0 where
  pub seen_any : Bool
  pub latest : ℕ
  pub received : List ℕ

pub new_receiver : ReliableReceiver
new_receiver = record { seen_any = false; latest = 0; received = [] }

-- `SeqDiff(m_latest, seq) > 1024`.
pub is_old : ℕ → ℕ → Bool
is_old latest seq = elim (seq_diff latest seq) [ pos n ↦ ltb 1024 n | negsuc n ↦ false ]

-- The loop of `PruneOld`.
pub prune_loop : ℕ → List ℕ → List ℕ
prune_loop latest [] = []
prune_loop latest (seq ∷ seqs) =
    let rest = prune_loop latest seqs in if is_old latest seq then rest else seq ∷ rest

-- `PruneOld`.
pub prune_old : ReliableReceiver → ReliableReceiver
prune_old r = record r { received = prune_loop r.latest r.received }

-- `OnReceive`: whether the number is new, and the receiver.
pub on_receive : ℕ → ReliableReceiver → Bool × ReliableReceiver
on_receive seq r =
    if r.seen_any
    then (if contains seq r.received then (false, r) else (
      true,
      prune_old (record r {
        received = seq ∷ r.received;
        latest = if seq_greater seq r.latest then seq else r.latest;
      }),
    ))
    else (true, record { seen_any = true; latest = seq; received = seq ∷ [] })

-- `static_cast<uint16_t>(ack - 1 - i)`, for the `i` below 32 of both loops.
pub behind : ℕ → ℕ → ℕ
behind ack i = (ack + 65536 - 1 - i) % 65536

-- The loop of `AckBits` over the `n` positions from `i` on.
pub bits_loop : ℕ → ℕ → ReliableReceiver → ℕ → ℕ
bits_loop zero i r bits = bits
bits_loop (suc n) i r bits =
    bits_loop n (i + 1) r
      (if contains (behind r.latest i) r.received then bit_or bits (2 ^ i) else bits)

-- `AckBits`.
pub ack_bits : ReliableReceiver → ℕ
ack_bits r = bits_loop 32 0 r 0

-- `OnReceive` of each number in turn.
pub receive_all : List ℕ → ReliableReceiver → ReliableReceiver
receive_all [] r = r
receive_all (seq ∷ seqs) r = receive_all seqs (on_receive seq r).1
