-- ===== src/Net/Reliable/Receiving/Duplicates.antt =====
-- A number is delivered once, as long as it is not too far behind.
use earth_rise_game.Prelude.{
  ℕ, ◌≡◌, refl, ap, true, false, ◌||◌, List, [], ◌∷◌, arith, ◌==◌, Bool-cases, inl, inr,
}
use earth_rise_game.Prelude.Sets.{contains, contains-cons}
use earth_rise_game.Net.Reliable.{ReliableReceiver, is_old, on_receive, receive_all}
use earth_rise_game.Net.Reliable.Receiving.{
  NeverOld, newer, contains-prune_loop, on_receive_first, on_receive_seen, on_receive_new,
}

-- The receiver holds the number.
abbrev Holds : ℕ → ReliableReceiver → Type 0
Holds seq r = (r.seen_any ≡ true) × (contains seq r.received ≡ true)

holds_first : (seq : ℕ) → contains seq (seq ∷ []) ≡ true
holds_first seq = unfold contains in ground arith

on_receive-Holds :
    (seq m : ℕ) (r : ReliableReceiver)
    → r.seen_any ≡ true
    → (seq == m || contains seq r.received) ≡ true
    → is_old (on_receive m r).1.latest seq ≡ false
    → Holds seq (on_receive m r).1
on_receive-Holds seq m r seen h recent = elim (Bool-cases (contains m r.received)) [
  | inl k ↦ rw (on_receive_seen m r seen k) (seen, ground (arith, same))
  | inr k ↦
      let e = on_receive_new m r seen k in
      let recent' : is_old (newer m r) seq ≡ false = rw e at recent in
      rw e (
        seen,
        ground (
          arith,
          contains-prune_loop seq (newer m r) (m ∷ r.received),
          contains-cons seq m r.received,
        ),
      )
]
  where
    same : (seq == m) ≡ true → contains m r.received ≡ contains seq r.received
    same t = ap (λ (k : ℕ). contains k r.received) (ground arith)

NeverOld-now :
    (seq : ℕ) (more : List ℕ) (r : ReliableReceiver)
    → NeverOld seq more r
    → is_old r.latest seq ≡ false
NeverOld-now seq [] r n = n
NeverOld-now seq (m ∷ ms) r n = n.0

receive_all-Holds :
    (seq : ℕ) (more : List ℕ) (r : ReliableReceiver)
    → Holds seq r
    → NeverOld seq more r
    → Holds seq (receive_all more r)
unfolding receive_all
receive_all-Holds seq [] r h n = h
receive_all-Holds seq (m ∷ ms) r h n =
    receive_all-Holds seq ms (on_receive m r).1
      (on_receive-Holds seq m r h.0 (ground (arith, h.1))
        (NeverOld-now seq ms (on_receive m r).1 n.1))
      n.1

Holds-arrived :
    (seq : ℕ) (r : ReliableReceiver)
    → is_old (on_receive seq r).1.latest seq ≡ false
    → Holds seq (on_receive seq r).1
Holds-arrived seq r recent = elim (Bool-cases r.seen_any) [
  | inl e ↦ on_receive-Holds seq seq r e (ground arith) recent
  | inr e ↦ rw (on_receive_first seq r e) (refl, holds_first seq)
]

-- Once a number has arrived it is refused as a duplicate, whatever arrives in between, as long as
-- the newest number stays at most 1024 ahead of it.
pub duplicate_refused :
    (seq : ℕ) (more : List ℕ) (r : ReliableReceiver)
    → NeverOld seq more (on_receive seq r).1
    → let later = receive_all more (on_receive seq r).1 in on_receive seq later ≡ (false, later)
duplicate_refused seq more r n =
    let h : Holds seq (receive_all more (on_receive seq r).1) =
      receive_all-Holds seq more (on_receive seq r).1
        (Holds-arrived seq r (NeverOld-now seq more (on_receive seq r).1 n)) n in
    on_receive_seen seq (receive_all more (on_receive seq r).1) h.0 h.1
