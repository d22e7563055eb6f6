-- ===== src/Net/Reliable/Examples.antt =====
-- Runs of a channel on concrete numbers, with microseconds for seconds.
use earth_rise_game.Prelude.{
  ℕ, ◌+◌, ◌-◌, ◌*◌, ◌/◌, ◌<◌, ◌≡◌, refl, true, false, ◌&&◌, List, [], ◌∷◌, none, ltb, leb,
  if◌then◌else◌, arith, All, map, length,
}
use earth_rise_game.Prelude.Sets.{contains}
use earth_rise_game.Prelude.Maps.{lookup, insert}
use mathlib.Core.List.{Memᴰ}
use earth_rise_game.Net.Reliable.{
  ReliableReceiver, behind, new_receiver, on_receive, receive_all, ack_bits, is_old,
}
use earth_rise_game.Net.Reliable.Receiving.{IsReceiver, receive_all_sound, stale_accepted, NeverOld}
use earth_rise_game.Net.Reliable.Receiving.Duplicates.{duplicate_refused}
use earth_rise_game.Net.Reliable.Sender.{
  Seconds, InFlight, ReliableSender, new_sender, send, on_ack, collect_timed_out, current_rto,
  initial_rto, min_rto, max_rto,
}
use earth_rise_game.Net.Reliable.Sender.Retire.{distance, on_ack-ack_bits}
use earth_rise_game.Net.Reliable.Sender.Resend.{
  IsOrdered, WasDue, resent, waited, estimate, collect_timed_out_paced,
}

abbrev micros : Seconds ℕ
micros = record {
  ratio = λ n d. n * 1000000 / d;
  add = λ a b. a + b;
  sub = λ a b. a - b;
  mul = λ a b. a * b / 1000000;
  div = λ a b. a * 1000000 / b;
  neg = λ a. 0;
  lt = ltb;
  le = leb;
}

abbrev arrived : List ℕ
arrived = 65534 ∷ 0 ∷ 65535 ∷ 2 ∷ []

abbrev receiver : ReliableReceiver
receiver = receive_all arrived new_receiver

abbrev sender : ReliableSender ℕ
sender = (send micros (7 ∷ []) 100 (send micros (8 ∷ []) 0 (new_sender micros)).1).1

fits : All (λ n. n < 65536) arrived
fits = (omega arith, (omega arith, (omega arith, (omega arith, tt))))

receive_all_sound_example : IsReceiver receiver
receive_all_sound_example = receive_all_sound arrived fits

seen : receiver.seen_any ≡ true
unfolding receive_all on_receive new_receiver contains earth_rise_game.Net.Reliable.prune_old
    earth_rise_game.Net.Reliable.prune_loop is_old earth_rise_game.Net.Sequence.seq_diff
    earth_rise_game.Net.Sequence.seq_greater
seen = refl

on_ack-ack_bits_example :
    lookup 0 (on_ack micros receiver.latest (ack_bits receiver) 500 sender).in_flight ≡ (
      if contains 0 receiver.received && leb (distance receiver.latest 0) 32
      then none
      else lookup 0 sender.in_flight)
on_ack-ack_bits_example = on_ack-ack_bits micros arrived sender 500 0 fits (omega arith) seen

one_arrived : (receive_all (2000 ∷ []) new_receiver).seen_any ≡ true
unfolding receive_all on_receive new_receiver contains earth_rise_game.Net.Reliable.prune_old
    earth_rise_game.Net.Reliable.prune_loop is_old earth_rise_game.Net.Sequence.seq_diff
    earth_rise_game.Net.Sequence.seq_greater
one_arrived = refl

stale : is_old (receive_all (2000 ∷ []) new_receiver).latest 100 ≡ true
unfolding receive_all on_receive new_receiver contains earth_rise_game.Net.Reliable.prune_old
    earth_rise_game.Net.Reliable.prune_loop is_old earth_rise_game.Net.Sequence.seq_diff
    earth_rise_game.Net.Sequence.seq_greater
stale = refl

stale_accepted_example :
    on_receive 100 (receive_all (2000 ∷ []) new_receiver)
    ≡ (true, receive_all (2000 ∷ []) new_receiver)
stale_accepted_example =
    stale_accepted (2000 ∷ []) 100 (omega arith, tt) (omega arith) one_arrived stale

near : NeverOld 3 (5 ∷ 1000 ∷ []) (on_receive 3 receiver).1
unfolding receive_all on_receive new_receiver contains earth_rise_game.Net.Reliable.prune_old
    earth_rise_game.Net.Reliable.prune_loop is_old earth_rise_game.Net.Sequence.seq_diff
    earth_rise_game.Net.Sequence.seq_greater
near = (refl, (refl, refl))

duplicate_refused_example :
    let later = receive_all (5 ∷ 1000 ∷ []) (on_receive 3 receiver).1 in
    on_receive 3 later ≡ (false, later)
duplicate_refused_example = duplicate_refused 3 (5 ∷ 1000 ∷ []) receiver near

leb_trans : (a b c : ℕ) → leb a b ≡ true → leb b c ≡ true → leb a c ≡ true
leb_trans a b c h k = ground arith

leb_not_lt : (a b : ℕ) → leb a b ≡ true → ltb b a ≡ false
leb_not_lt a b h = ground arith

leb_self : (a : ℕ) → leb a a ≡ true
leb_self a = ground arith

leb_total : (a b : ℕ) → ltb a b ≡ false → leb b a ≡ true
leb_total a b h = ground arith

micros-IsOrdered : IsOrdered micros
micros-IsOrdered = record {
  le_trans = leb_trans;
  le_not_lt = leb_not_lt;
  numbers = λ a b h. (leb_self a, leb_self b);
  total = λ a b h k l. leb_total a b l;
  above_min = refl;
  below_max = refl;
}

-- A sender that has measured round trips of about 30 ms.
abbrev measured : ReliableSender ℕ
measured = record sender { srtt = 30000; rttvar = 1000 }

collect_timed_out_paced_example :
    let (out, snd') = collect_timed_out micros 50050 measured in
    ((m : InFlight ℕ) → Memᴰ m out → WasDue micros 50050 measured.in_flight m)
    × ((seq : ℕ) (f : InFlight ℕ)
        → Memᴰ (seq, f) measured.in_flight
        → leb (max_rto micros) (waited micros 50050 f) ≡ true
        → Memᴰ (resent micros 50050 f) out)
    × ((seq : ℕ) (f : InFlight ℕ)
        → Memᴰ (seq, f) measured.in_flight
        → ltb (waited micros 50050 f) (min_rto micros) ≡ true
        → Memᴰ (seq, f) snd'.in_flight)
    × (map (λ x. x.0) snd'.in_flight ≡ map (λ x. x.0) measured.in_flight)
collect_timed_out_paced_example =
    collect_timed_out_paced micros micros-IsOrdered 50050 measured
      (leb_self (estimate micros measured))

-- After 50.05 ms the message that was sent at 0 is due, and the one from 0.1 ms is not.
one_due : length (collect_timed_out micros 50050 measured).0 ≡ 1
unfolding collect_timed_out earth_rise_game.Net.Reliable.Sender.collect_loop current_rto send
    new_sender insert
one_due = refl
