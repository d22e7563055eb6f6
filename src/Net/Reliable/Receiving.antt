-- ===== src/Net/Reliable/Receiving.antt =====
-- What the receiver remembers.
pub mod Duplicates
use earth_rise_game.Prelude.{
  ℕ, zero, suc, ◌+◌, ◌-◌, ◌%◌, ◌≤◌, ◌<◌, ◌≡◌, refl, ap, sym, ◌∙◌, Bool, true, false, not, ◌&&◌,
  ◌||◌, List, [], ◌∷◌, arith, ltb, ◌==◌, if◌then◌else◌, Bool-cases, inl, inr, All,
}
use earth_rise_game.Prelude.Int.{ℤ, pos, negsuc}
use earth_rise_game.Prelude.Sets.{contains, contains-cons}
use earth_rise_game.Net.Sequence.{seq_greater, seq_diff, to_int16}
use earth_rise_game.Net.Reliable.{
  ReliableReceiver, new_receiver, is_old, prune_loop, prune_old, on_receive, receive_all,
}

contains-prune_loop :
    (n latest : ℕ) (seqs : List ℕ)
    → contains n (prune_loop latest seqs) ≡ (contains n seqs && not (is_old latest n))
unfolding prune_loop contains
contains-prune_loop n latest [] = refl
contains-prune_loop n latest (x ∷ xs) = elim (Bool-cases (n == x)) [
  | inl e ↦
      let same : is_old latest x ≡ is_old latest n = ap (is_old latest) (eq n x e) in
      ground
        (arith, contains-prune_loop n latest xs, contains-cons n x (prune_loop latest xs), same)
  | inr e ↦
      ground (arith, contains-prune_loop n latest xs, contains-cons n x (prune_loop latest xs))
]
  where
    eq : (a b : ℕ) → (a == b) ≡ true → b ≡ a
    eq a b h = ground arith

is_old_window :
    (latest seq : ℕ)
    → latest < 65536
    → seq < 65536
    → is_old latest seq ≡ true
    → seq_greater seq latest ≡ false
unfolding is_old seq_greater seq_diff
is_old_window latest seq l b h = ground arith

not_old_self : (seq : ℕ) → seq < 65536 → is_old seq seq ≡ false
unfolding is_old seq_diff
not_old_self seq b = ground arith

-- What holds between two calls: the numbers fit 16 bits, none is too old, and the newest is there.
pub record IsReceiver (r : ReliableReceiver) : Type 0 where
  pub fits : r.latest < 65536
  pub recent : (n : ℕ) → contains n r.received ≡ true → is_old r.latest n ≡ false
  pub newest : r.seen_any ≡ true → contains r.latest r.received ≡ true
  pub unseen : r.seen_any ≡ false → r.received ≡ []

new_receiver-IsReceiver : IsReceiver new_receiver
unfolding new_receiver contains
new_receiver-IsReceiver = record {
  fits = omega arith;
  recent = λ n h. absurd (ground arith);
  newest = λ h. ground arith;
  unseen = λ h. refl;
}

on_receive_first :
    (seq : ℕ) (r : ReliableReceiver)
    → r.seen_any ≡ false
    → on_receive seq r ≡ (true, record { seen_any = true; latest = seq; received = seq ∷ [] })
unfolding on_receive
on_receive_first seq r e = rw e refl

on_receive_seen :
    (seq : ℕ) (r : ReliableReceiver)
    → r.seen_any ≡ true
    → contains seq r.received ≡ true
    → on_receive seq r ≡ (false, r)
unfolding on_receive
on_receive_seen seq r e k = rw (e, k) refl

newer : ℕ → ReliableReceiver → ℕ
newer seq r = if seq_greater seq r.latest then seq else r.latest

on_receive_new :
    (seq : ℕ) (r : ReliableReceiver)
    → r.seen_any ≡ true
    → contains seq r.received ≡ false
    → on_receive seq r ≡ (
      true,
      record r { received = prune_loop (newer seq r) (seq ∷ r.received); latest = newer seq r },
    )
unfolding on_receive prune_old newer
on_receive_new seq r e k = rw (e, k) refl

on_receive-IsReceiver :
    (seq : ℕ) (r : ReliableReceiver) → seq < 65536 → IsReceiver r → IsReceiver (on_receive seq r).1
on_receive-IsReceiver seq r b v = elim (Bool-cases r.seen_any) [
  | inr e ↦ rw (on_receive_first seq r e) (record {
    fits = b;
    recent = λ n h. rw (same n seq h) (not_old_self seq b);
    newest = λ h. only seq;
    unseen = λ h. absurd (ground arith);
  })
  | inl e ↦ elim (Bool-cases (contains seq r.received)) [
    | inl k ↦ rw (on_receive_seen seq r e k) v
    | inr k ↦
        let l : ℕ = newer seq r in
        rw (on_receive_new seq r e k) (record {
          fits = newer_fits;
          recent = λ n h. ground (arith, contains-prune_loop n l (seq ∷ r.received));
          newest = λ h. ground (
            arith,
            contains-prune_loop l l (seq ∷ r.received),
            not_old_self l newer_fits,
            newer_in e,
          );
          unseen = λ h. absurd (ground arith);
        })
  ]
]
  where
    same : (n m : ℕ) → contains n (m ∷ []) ≡ true → n ≡ m
    same n m h = unfold contains in ground arith

    only : (m : ℕ) → contains m (m ∷ []) ≡ true
    only m = unfold contains in ground arith

    newer_fits : newer seq r < 65536
    newer_fits = unfold newer in ground (arith, v.fits)

    newer_in : r.seen_any ≡ true → contains (newer seq r) (seq ∷ r.received) ≡ true
    newer_in e =
        unfold newer in
        elim (Bool-cases (seq_greater seq r.latest)) [
          | inl g ↦ rw g (ground (arith, contains-cons seq seq r.received))
          | inr g ↦ rw g (ground (arith, contains-cons r.latest seq r.received, v.newest e))
        ]

receive_all-IsReceiver :
    (seqs : List ℕ) (r : ReliableReceiver)
    → All (λ n. n < 65536) seqs
    → IsReceiver r
    → IsReceiver (receive_all seqs r)
unfolding receive_all
receive_all-IsReceiver [] r b v = v
receive_all-IsReceiver (x ∷ xs) r b v =
    receive_all-IsReceiver xs (on_receive x r).1 b.1 (on_receive-IsReceiver x r b.0 v)

-- Whatever 16-bit numbers have arrived, the receiver's newest number fits 16 bits, no number that it
-- holds is more than 1024 behind the newest one, and the newest one is held if any has arrived.
pub receive_all_sound :
    (seqs : List ℕ) → All (λ n. n < 65536) seqs → IsReceiver (receive_all seqs new_receiver)
receive_all_sound seqs b = receive_all-IsReceiver seqs new_receiver b new_receiver-IsReceiver

prune_loop_all_recent :
    (latest : ℕ) (seqs : List ℕ)
    → ((n : ℕ) → contains n seqs ≡ true → is_old latest n ≡ false)
    → prune_loop latest seqs ≡ seqs
unfolding prune_loop
prune_loop_all_recent latest [] h = refl
prune_loop_all_recent latest (x ∷ xs) h =
    let rest : prune_loop latest xs ≡ xs =
      prune_loop_all_recent latest xs (λ n k. h n (ground (arith, contains-cons n x xs))) in
    rw (h x (ground (arith, contains-cons x x xs))) (ap (λ (t : List ℕ). x ∷ t) rest)

-- A number more than 1024 behind the newest one is accepted and leaves no trace, so that it is
-- accepted as often as it arrives.
pub stale_accepted :
    (seqs : List ℕ) (seq : ℕ)
    → All (λ n. n < 65536) seqs
    → seq < 65536
    → (receive_all seqs new_receiver).seen_any ≡ true
    → is_old (receive_all seqs new_receiver).latest seq ≡ true
    → on_receive seq (receive_all seqs new_receiver) ≡ (true, receive_all seqs new_receiver)
stale_accepted seqs seq b s seen old =
    let r : ReliableReceiver = receive_all seqs new_receiver in
    let v : IsReceiver r = receive_all_sound seqs b in
    let k : contains seq r.received ≡ false = ground (arith, v.recent seq) in
    on_receive_new seq r seen k ∙ ap (λ x. (true, x)) (unchanged r v old)
  where
    unchanged :
        (r : ReliableReceiver)
        → IsReceiver r
        → is_old r.latest seq ≡ true
        → record r { received = prune_loop (newer seq r) (seq ∷ r.received); latest = newer seq r }
          ≡ r
    unchanged r v old =
        let older : newer seq r ≡ r.latest =
          unfold newer in rw (is_old_window r.latest seq v.fits s old) refl in
        rw older (
          ap (λ (t : List ℕ). record r { received = t })
            (unfold prune_loop in rw old (prune_loop_all_recent r.latest r.received v.recent)))

-- The number `seq` is never more than 1024 behind the newest one while `more` arrive.
abbrev pub NeverOld : ℕ → List ℕ → ReliableReceiver → Type 0
NeverOld seq [] r = is_old r.latest seq ≡ false
NeverOld seq (m ∷ ms) r = (is_old r.latest seq ≡ false) × NeverOld seq ms (on_receive m r).1
