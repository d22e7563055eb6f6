-- ===== src/Net/Reliable/Sender/Retire.antt =====
-- The two ends of a channel: what a sender retires is what the receiver has received.
use earth_rise_game.Prelude.{
  ℕ, zero, suc, ◌+◌, ◌-◌, ◌/◌, ◌%◌, ◌^◌, ◌≤◌, ◌<◌, bit_and, ◌≡◌, refl, ap, ◌∙◌, Bool, true, false,
  not, All, ◌&&◌, ◌||◌, List, Option, none, arith, leb, ◌==◌, if◌then◌else◌, Bool-cases,
  Option-cases, inl, inr,
}
use earth_rise_game.Prelude.Bits.{bit}
use earth_rise_game.Prelude.Sets.{contains}
use earth_rise_game.Prelude.Maps.{lookup, lookup-erase}
use earth_rise_game.Net.Reliable.{ReliableReceiver, behind, ack_bits, new_receiver, receive_all}
use earth_rise_game.Net.Reliable.Sender.{
  Seconds, InFlight, ReliableSender, ack_one, ack_loop, on_ack,
}
use earth_rise_game.Net.Reliable.Receiving.{IsReceiver, receive_all_sound}
use earth_rise_game.Net.Reliable.AckBits.{bit_test, bit-ack_bits}

-- How far a 16-bit number is behind another one.
abbrev pub distance : ℕ → ℕ → ℕ
distance ack seq = (ack + 65536 - seq) % 65536

-- The numbers that an acknowledgement covers: the newest one, and those of the 32 before it whose bit is set.
unfoldable pub covered : ℕ → ℕ → ℕ → Bool
covered ack bits seq =
    (seq == ack)
    || leb 1 (distance ack seq) && leb (distance ack seq) 32 && bit (distance ack seq - 1) bits == 1

behind-distance :
    (ack seq i : ℕ)
    → ack < 65536
    → seq < 65536
    → i < 32
    → (behind ack i == seq) ≡ (distance ack seq == i + 1)
unfolding behind
behind-distance ack seq i a s few = ground arith

if_if {ℓ} :
    {A : Type ℓ} (p q : Bool) (a b : A)
    → (if p then a else if q then a else b) ≡ (if p || q then a else b)
if_if true q a b = refl
if_if false q a b = refl

module _ {ℓ} {D : Type ℓ} (s : Seconds D) where
  lookup-ack_one :
      (seq j : ℕ) (now : D) (snd : ReliableSender D)
      → lookup j (ack_one s seq now snd).in_flight
        ≡ (if seq == j then none else lookup j snd.in_flight)
  unfolding ack_one
  lookup-ack_one seq j now snd = elim (Option-cases (lookup seq snd.in_flight)) [
    | inr (f, e) ↦ rw (e, ack_one) (lookup-erase j seq snd.in_flight)
    | inl e ↦
        rw (e, ack_one)
          (elim (Bool-cases (seq == j)) [
            | inl same ↦ rw same (ap (λ (k : ℕ). lookup k snd.in_flight) (eq seq j same) ∙ e)
            | inr n ↦ rw n refl
          ])
  ]
    where
      eq : (a b : ℕ) → (a == b) ≡ true → b ≡ a
      eq a b h = ground arith

  lookup-ack_loop :
      (n i ack bits : ℕ) (now : D) (snd : ReliableSender D) (seq : ℕ)
      → ack < 65536
      → seq < 65536
      → i + n ≤ 32
      → lookup seq (ack_loop s n i ack bits now snd).in_flight ≡ (
          if leb (i + 1) (distance ack seq)
            && leb (distance ack seq) (i + n)
            && bit (distance ack seq - 1) bits == 1
          then none
          else lookup seq snd.in_flight)
  unfolding ack_loop
  lookup-ack_loop zero i ack bits now snd seq a b h = ground arith
  lookup-ack_loop (suc n) i ack bits now snd seq a b h =
      let hit : Bool = not (bit_and (bits / 2 ^ i) 1 == 0) in
      let snd' : ReliableSender D = if hit then ack_one s (behind ack i) now snd else snd in
      let rest = lookup-ack_loop n (i + 1) ack bits now snd' seq a b (omega arith) in
      let d : ℕ = distance ack seq in
      let tests : ((leb (i + 1 + 1) d && leb d (i + 1 + n) && bit (d - 1) bits == 1)
            || (bit i bits == 1) && behind ack i == seq)
          ≡ (leb (i + 1) d && leb d (i + suc n) && bit (d - 1) bits == 1) =
        rw (behind-distance ack seq i a b (omega arith)) (split d) in
      rest
      ∙ ap
          (λ (o : Option (InFlight D)).
            if leb (i + 1 + 1) d && leb d (i + 1 + n) && bit (d - 1) bits == 1 then none else o)
          one
      ∙ if_if (leb (i + 1 + 1) d && leb d (i + 1 + n) && bit (d - 1) bits == 1) _ none
          (lookup seq snd.in_flight)
      ∙ ap (λ (t : Bool). if t then none else lookup seq snd.in_flight) tests
    where
      split :
          (d : ℕ)
          → ((leb (i + 1 + 1) d && leb d (i + 1 + n) && bit (d - 1) bits == 1)
              || (bit i bits == 1) && d == i + 1)
            ≡ (leb (i + 1) d && leb d (i + suc n) && bit (d - 1) bits == 1)
      split d = elim (Bool-cases (d == i + 1)) [
        | inl e ↦
            let same : bit (d - 1) bits ≡ bit i bits = ap (λ (k : ℕ). bit k bits) (ground arith) in
            ground (arith, same)
        | inr e ↦ ground arith
      ]

      one :
          lookup seq
            (if not (bit_and (bits / 2 ^ i) 1 == 0)
              then ack_one s (behind ack i) now snd
              else snd).in_flight
          ≡ (if (bit i bits == 1) && behind ack i == seq then none else lookup seq snd.in_flight)
      one = rw (bit_test i bits) (elim (Bool-cases (bit i bits == 1)) [
        | inl e ↦ rw e (lookup-ack_one (behind ack i) seq now snd)
        | inr e ↦ rw e refl
      ])

  covered-on_ack :
      (ack bits : ℕ) (now : D) (snd : ReliableSender D) (seq : ℕ)
      → ack < 65536
      → seq < 65536
      → lookup seq (on_ack s ack bits now snd).in_flight
        ≡ (if covered ack bits seq then none else lookup seq snd.in_flight)
  unfolding on_ack covered
  covered-on_ack ack bits now snd seq a b = ground (
    arith,
    lookup-ack_loop 32 0 ack bits now (ack_one s ack now snd) seq a b (omega arith),
    lookup-ack_one ack seq now snd,
  )

-- The receiver's own acknowledgement covers the numbers that it holds, up to 32 behind the newest one.
covered-ack_bits :
    (r : ReliableReceiver) (seq : ℕ)
    → r.latest < 65536
    → seq < 65536
    → contains r.latest r.received ≡ true
    → covered r.latest (ack_bits r) seq
      ≡ (contains seq r.received && leb (distance r.latest seq) 32)
unfolding covered
covered-ack_bits r seq a b held = elim (Bool-cases (seq == r.latest)) [
  | inl e ↦
      let same : contains r.latest r.received ≡ contains seq r.received =
        ap (λ (k : ℕ). contains k r.received) (ground arith) in
      ground (arith, same)
  | inr e ↦
      let d : ℕ = distance r.latest seq in
      let same : leb 1 d ≡ true
          → leb d 32 ≡ true
          → contains (behind r.latest (d - 1)) r.received ≡ contains seq r.received =
        λ h k.
          ap (λ (k : ℕ). contains k r.received)
            (ground (arith, behind-distance r.latest seq (d - 1) a b (ground arith))) in
      ground (arith, bit-ack_bits r (d - 1), same)
]

module _ {ℓ} {D : Type ℓ} (s : Seconds D) where
  -- A sender that processes the acknowledgement of a receiver at which 16-bit numbers have arrived
  -- retires exactly the messages whose numbers the receiver holds, up to 32 behind its newest one; any
  -- other message stays in flight as it was.
  pub on_ack-ack_bits :
      (seqs : List ℕ) (snd : ReliableSender D) (now : D) (seq : ℕ)
      → All (λ n. n < 65536) seqs
      → seq < 65536
      → (receive_all seqs new_receiver).seen_any ≡ true
      → let r = receive_all seqs new_receiver in
        lookup seq (on_ack s r.latest (ack_bits r) now snd).in_flight ≡ (
          if contains seq r.received && leb (distance r.latest seq) 32
          then none
          else lookup seq snd.in_flight)
  on_ack-ack_bits seqs snd now seq all b seen =
      let r : ReliableReceiver = receive_all seqs new_receiver in
      let v : IsReceiver r = receive_all_sound seqs all in
      covered-on_ack s r.latest (ack_bits r) now snd seq v.fits b
      ∙ ap (λ (t : Bool). if t then none else lookup seq snd.in_flight)
          (covered-ack_bits r seq v.fits b (v.newest seen))
