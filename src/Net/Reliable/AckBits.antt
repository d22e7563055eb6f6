-- ===== src/Net/Reliable/AckBits.antt =====
-- What the ack bits say: bit i stands for the number i + 1 behind the newest one.
use earth_rise_game.Prelude.{
  ℕ, zero, suc, ◌+◌, ◌/◌, ◌^◌, max, bit_or, bit_and, ◌≡◌, ap, Bool, true, false, not, ◌&&◌, arith,
  ltb, leb, ◌==◌, if◌then◌else◌, Bool-cases, inl, inr,
}
use earth_rise_game.Prelude.Bits.{bit, bit-or, bit-pow, bit_of_zero, bit_shift_mask}
use earth_rise_game.Prelude.Mask.{bit_and_mask}
use earth_rise_game.Prelude.Sets.{contains}
use earth_rise_game.Net.Reliable.{ReliableReceiver, behind, bits_loop, ack_bits}

-- The test of a bit, as the source writes it.
pub bit_test : (k x : ℕ) → not (bit_and (x / 2 ^ k) 1 == 0) ≡ (bit k x == 1)
bit_test k x = ground (arith, bit_and_mask 1 (x / 2 ^ k), bit_shift_mask k x)

bit_step :
    (k i bits : ℕ) (known : Bool)
    → bit k (if known then bit_or bits (2 ^ i) else bits)
      ≡ max (bit k bits) (if known && (k == i) then 1 else 0)
bit_step k i bits true = ground (arith, bit-or k bits (2 ^ i), bit-pow k i)
bit_step k i bits false = ground arith

bit-bits_loop :
    (k n i : ℕ) (r : ReliableReceiver) (bits : ℕ)
    → bit k (bits_loop n i r bits)
      ≡ max
          (bit k bits)
          (if contains (behind r.latest k) r.received && leb i k && ltb k (i + n) then 1 else 0)
unfolding bits_loop
bit-bits_loop k zero i r bits = ground arith
bit-bits_loop k (suc n) i r bits =
    let known : Bool = contains (behind r.latest i) r.received in
    let rest = bit-bits_loop k n (i + 1) r (if known then bit_or bits (2 ^ i) else bits) in
    elim (Bool-cases (k == i)) [
      | inl e ↦
          let same : contains (behind r.latest k) r.received ≡ known =
            ap (λ (j : ℕ). contains (behind r.latest j) r.received) (ground arith) in
          ground (arith, rest, bit_step k i bits known, same)
      | inr e ↦ ground (arith, rest, bit_step k i bits known)
    ]

-- Bit i of the 32 ack bits is 1 just if the receiver holds the number i + 1 behind the newest one.
pub bit-ack_bits :
    (r : ReliableReceiver) (i : ℕ)
    → bit i (ack_bits r) ≡ (if contains (behind r.latest i) r.received && ltb i 32 then 1 else 0)
unfolding ack_bits
bit-ack_bits r i = ground (arith, bit-bits_loop i 32 0 r 0, bit_of_zero i)
