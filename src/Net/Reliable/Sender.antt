-- ===== src/Net/Reliable/Sender.antt =====
-- `ReliableSender`. What it does with `double` is a parameter: the operations of `Seconds`.
pub mod Retire
pub mod Resend
use earth_rise_game.Prelude.{
  ℕ, zero, suc, ◌+◌, ◌/◌, ◌%◌, ◌^◌, bit_and, Bool, true, false, not, List, [], ◌∷◌, Option, none,
  some, ◌==◌, if◌then◌else◌,
}
use earth_rise_game.Prelude.Maps.{lookup, insert, erase}
use earth_rise_game.Net.Reliable.{behind}

-- The arithmetic of `double`. `ratio n d` is the literal n / d.
pub record Seconds {ℓ} (D : Type ℓ) : Type ℓ where
  pub ratio : ℕ → ℕ → D
  pub add : D → D → D
  pub sub : D → D → D
  pub mul : D → D → D
  pub div : D → D → D
  pub neg : D → D
  pub lt : D → D → Bool
  pub le : D → D → Bool

-- `struct InFlight`.
pub record InFlight {ℓ} (D : Type ℓ) : Type ℓ where
  pub sequence : ℕ
  pub payload : List ℕ
  pub sent_time : D
  pub send_count : ℕ

-- `class ReliableSender`.
pub record ReliableSender {ℓ} (D : Type ℓ) : Type ℓ where
  pub next_sequence : ℕ
  pub in_flight : List (ℕ × InFlight D)
  pub srtt : D
  pub rttvar : D

module _ {ℓ} {D : Type ℓ} (s : Seconds D) where
  unfoldable pub new_sender : ReliableSender D
  new_sender = record {
    next_sequence = 0;
    in_flight = [];
    srtt = s.ratio 0 1;
    rttvar = s.ratio 0 1;
  }

  -- `INITIAL_RTO`, `MIN_RTO` and `MAX_RTO`.
  abbrev pub initial_rto : D
  initial_rto = s.ratio 2 10

  abbrev pub min_rto : D
  min_rto = s.ratio 5 100

  abbrev pub max_rto : D
  max_rto = s.ratio 2 1

  -- `UpdateRtt`.
  pub update_rtt : D → ReliableSender D → ReliableSender D
  update_rtt sample snd =
      if s.lt sample (s.ratio 0 1)
      then snd
      else if s.le snd.srtt (s.ratio 0 1)
      then record snd { srtt = sample; rttvar = s.div sample (s.ratio 2 1) }
      else (let alpha = s.div (s.ratio 1 1) (s.ratio 8 1) in
          let beta = s.div (s.ratio 1 1) (s.ratio 4 1) in
          let diff = s.sub sample snd.srtt in
          record snd {
            rttvar =
                s.add (s.mul (s.sub (s.ratio 1 1) beta) snd.rttvar)
                  (s.mul beta (if s.lt diff (s.ratio 0 1) then s.neg diff else diff));
            srtt = s.add (s.mul (s.sub (s.ratio 1 1) alpha) snd.srtt) (s.mul alpha sample);
          })

  -- `CurrentRto`.
  unfoldable pub current_rto : ReliableSender D → D
  current_rto snd =
      if s.le snd.srtt (s.ratio 0 1)
      then initial_rto
      else (let rto = s.add snd.srtt (s.mul (s.ratio 4 1) snd.rttvar) in
          let rto' = if s.lt rto min_rto then min_rto else rto in
          if s.lt max_rto rto' then max_rto else rto')

  -- `Send`: the sequence number, and the sender.
  unfoldable pub send : List ℕ → D → ReliableSender D → ℕ × ReliableSender D
  send payload now snd =
      let seq = snd.next_sequence in
      let f : InFlight D = record {
        sequence = seq;
        payload = payload;
        sent_time = now;
        send_count = 1;
      } in
      (
        seq,
        record snd { next_sequence = (seq + 1) % 65536; in_flight = insert seq f snd.in_flight },
      )

  -- The sample that `AckOne` takes of a message that was sent exactly once.
  pub sample_rtt : InFlight D → D → ReliableSender D → ReliableSender D
  sample_rtt f now snd = if f.send_count == 1 then update_rtt (s.sub now f.sent_time) snd else snd

  -- `AckOne`.
  pub ack_one : ℕ → D → ReliableSender D → ReliableSender D
  ack_one seq now snd = elim (lookup seq snd.in_flight) [
    | none ↦ snd
    | some f ↦ record (sample_rtt f now snd) { in_flight = erase seq snd.in_flight }
  ]

  -- The loop of `OnAck` over the `n` bits from bit `i` on.
  pub ack_loop : ℕ → ℕ → ℕ → ℕ → D → ReliableSender D → ReliableSender D
  ack_loop zero i ack bits now snd = snd
  ack_loop (suc n) i ack bits now snd =
      ack_loop n (i + 1) ack bits now
        (if not (bit_and (bits / 2 ^ i) 1 == 0) then ack_one (behind ack i) now snd else snd)

  -- `OnAck`.
  pub on_ack : ℕ → ℕ → D → ReliableSender D → ReliableSender D
  on_ack ack bits now snd = ack_loop 32 0 ack bits now (ack_one ack now snd)

  -- The loop of `CollectTimedOut`: what is collected, and the messages in flight after it.
  unfoldable pub collect_loop :
      D → D → List (ℕ × InFlight D) → List (InFlight D) × List (ℕ × InFlight D)
  collect_loop rto now [] = ([], [])
  collect_loop rto now ((seq, f) ∷ fs) =
      let (out, rest) = collect_loop rto now fs in
      if s.le rto (s.sub now f.sent_time)
      then (let f' = record f { sent_time = now; send_count = (f.send_count + 1) % 2 ^ 32 } in
          (f' ∷ out, (seq, f') ∷ rest))
      else (out, (seq, f) ∷ rest)

  -- `CollectTimedOut`.
  unfoldable pub collect_timed_out : D → ReliableSender D → List (InFlight D) × ReliableSender D
  collect_timed_out now snd =
      let (out, rest) = collect_loop (current_rto snd) now snd.in_flight in
      (out, record snd { in_flight = rest })
