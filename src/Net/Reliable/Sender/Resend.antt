-- ===== src/Net/Reliable/Sender/Resend.antt =====
-- When `CollectTimedOut` sends a message once more: the clamps of `CurrentRto` bound its pace.
use earth_rise_game.Prelude.{
  ℕ, ◌+◌, ◌%◌, ◌^◌, ◌≡◌, refl, ap, true, false, List, [], ◌∷◌, map, if◌then◌else◌, Bool-cases, inl,
  inr,
}
use mathlib.Core.List.{Memᴰ}
use mathlib.Core.List.Memᴰ
use earth_rise_game.Net.Reliable.Sender.{
  Seconds, InFlight, ReliableSender, initial_rto, min_rto, max_rto, collect_loop, collect_timed_out,
  current_rto,
}

-- What the comparisons of `double` do: `total` only for numbers that are not NaN, which are those
-- that are `<=` to themselves. The last two order the literals 0.05, 0.2 and 2.0.
pub record IsOrdered {ℓ} {D : Type ℓ} (s : Seconds D) : Type ℓ where
  pub le_trans : (a b c : D) → s.le a b ≡ true → s.le b c ≡ true → s.le a c ≡ true
  pub le_not_lt : (a b : D) → s.le a b ≡ true → s.lt b a ≡ false
  pub numbers : (a b : D) → s.le a b ≡ true → (s.le a a ≡ true) × (s.le b b ≡ true)
  pub total : (a b : D) → s.le a a ≡ true → s.le b b ≡ true → s.lt a b ≡ false → s.le b a ≡ true
  pub above_min : s.le (min_rto s) (initial_rto s) ≡ true
  pub below_max : s.le (initial_rto s) (max_rto s) ≡ true

module _ {ℓ} {D : Type ℓ} (s : Seconds D) where
  -- A message as it is sent once more.
  abbrev pub resent : D → InFlight D → InFlight D
  resent now f = record f { sent_time = now; send_count = (f.send_count + 1) % 2 ^ 32 }

  -- How long a message has waited.
  abbrev pub waited : D → InFlight D → D
  waited now f = s.sub now f.sent_time

  -- The time that `CurrentRto` clamps.
  abbrev pub estimate : ReliableSender D → D
  estimate snd = s.add snd.srtt (s.mul (s.ratio 4 1) snd.rttvar)

  -- A message that is sent once more comes from one in flight that has waited for at least MIN_RTO.
  pub record WasDue (now : D) (fs : List (ℕ × InFlight D)) (m : InFlight D) : Type ℓ where
    pub seq : ℕ
    pub before : InFlight D
    pub held : Memᴰ (seq, before) fs
    pub same : m ≡ resent now before
    pub long : s.le (min_rto s) (waited now before) ≡ true

  module _ (laws : IsOrdered s) where
    min_max : s.le (min_rto s) (max_rto s) ≡ true
    min_max = laws.le_trans _ _ _ laws.above_min laws.below_max

    clamped :
        (rto : D)
        → s.le rto rto ≡ true
        → let rto' = if s.lt rto (min_rto s) then min_rto s else rto in
          let rto'' = if s.lt (max_rto s) rto' then max_rto s else rto' in
          (s.le (min_rto s) rto'' ≡ true) × (s.le rto'' (max_rto s) ≡ true)
    clamped rto number =
        let (low, high) = laws.numbers _ _ min_max in
        elim (Bool-cases (s.lt rto (min_rto s))) [
          | inl small ↦ rw (small, laws.le_not_lt _ _ min_max) (low, min_max)
          | inr large ↦
              let over : s.le (min_rto s) rto ≡ true =
                laws.total rto (min_rto s) number low large in
              elim (Bool-cases (s.lt (max_rto s) rto)) [
                | inl much ↦ rw (large, much) (min_max, high)
                | inr fits ↦ rw (large, fits) (over, laws.total (max_rto s) rto high number fits)
              ]
        ]

    -- `CurrentRto` lies between MIN_RTO and MAX_RTO.
    current_rto_bounds :
        (snd : ReliableSender D)
        → s.le (estimate snd) (estimate snd) ≡ true
        → (s.le (min_rto s) (current_rto s snd) ≡ true)
          × (s.le (current_rto s snd) (max_rto s) ≡ true)
    unfolding current_rto
    current_rto_bounds snd number = elim (Bool-cases (s.le snd.srtt (s.ratio 0 1))) [
      | inl new ↦ rw new (laws.above_min, laws.below_max)
      | inr old ↦ rw old (clamped (estimate snd) number)
    ]

    collect_step :
        (rto now : D) (seq : ℕ) (f : InFlight D) (fs : List (ℕ × InFlight D))
        → collect_loop s rto now ((seq, f) ∷ fs) ≡ (
          (if s.le rto (waited now f)
              then resent now f ∷ (collect_loop s rto now fs).0
              else (collect_loop s rto now fs).0),
          (seq, if s.le rto (waited now f) then resent now f else f)
              ∷ (collect_loop s rto now fs).1,
        )
    unfolding collect_loop
    collect_step rto now seq f fs = elim (Bool-cases (s.le rto (waited now f))) [
      | inl e ↦ rw e refl
      | inr e ↦ rw e refl
    ]

    collect_none : (rto now : D) → collect_loop s rto now [] ≡ ([], [])
    unfolding collect_loop
    collect_none rto now = refl

    WasDue-later :
        (now : D) (x : ℕ × InFlight D) (fs : List (ℕ × InFlight D)) (m : InFlight D)
        → WasDue now fs m
        → WasDue now (x ∷ fs) m
    WasDue-later now x fs m w = record {
      seq = w.seq;
      before = w.before;
      held = Memᴰ.tail w.held;
      same = w.same;
      long = w.long;
    }

    WasDue-first :
        (now : D) (seq : ℕ) (f : InFlight D) (fs : List (ℕ × InFlight D)) (out : List (InFlight D))
        (m : InFlight D)
        → s.le (min_rto s) (waited now f) ≡ true
        → (Memᴰ m out → WasDue now ((seq, f) ∷ fs) m)
        → Memᴰ m (resent now f ∷ out)
        → WasDue now ((seq, f) ∷ fs) m
    WasDue-first now seq f fs out m long rest (Memᴰ.head e) = record {
      seq = seq;
      before = f;
      held = Memᴰ.head refl;
      same = e;
      long = long;
    }
    WasDue-first now seq f fs out m long rest (Memᴰ.tail h) = rest h

    module _ (rto now : D) where
      collect_loop-WasDue :
          (fs : List (ℕ × InFlight D)) (m : InFlight D)
          → s.le (min_rto s) rto ≡ true
          → Memᴰ m (collect_loop s rto now fs).0
          → WasDue now fs m
      collect_loop-WasDue [] m low h = absurd (Memᴰ.not-nil (rw (collect_none rto now) at h))
      collect_loop-WasDue ((seq, f) ∷ fs) m low h =
          let rest = λ (k : Memᴰ m (collect_loop s rto now fs).0).
            WasDue-later now (seq, f) fs m (collect_loop-WasDue fs m low k) in
          let k = rw (collect_step rto now seq f fs) at h in
          elim (Bool-cases (s.le rto (waited now f))) [
            | inl e ↦ WasDue-first now seq f fs _ m (laws.le_trans _ _ _ low e) rest (rw e at k)
            | inr e ↦ rest (rw e at k)
          ]

      due_collected :
          (fs : List (ℕ × InFlight D)) (seq : ℕ) (f : InFlight D)
          → s.le rto (waited now f) ≡ true
          → Memᴰ (seq, f) fs
          → Memᴰ (resent now f) (collect_loop s rto now fs).0
      due_collected [] seq f long h = elim h [ ]
      due_collected ((n, g) ∷ fs) seq f long (Memᴰ.head e) = rw (collect_step rto now n g fs) (
          let same : f ≡ g = ap (λ (x : ℕ × InFlight D). x.1) e in
          rw (rw same at long) (Memᴰ.head (ap (resent now) same)))
      due_collected ((n, g) ∷ fs) seq f long (Memᴰ.tail h) =
          rw (collect_step rto now n g fs) (elim (Bool-cases (s.le rto (waited now g))) [
            | inl e ↦ rw e (Memᴰ.tail (due_collected fs seq f long h))
            | inr e ↦ rw e (due_collected fs seq f long h)
          ])

      early_kept :
          (fs : List (ℕ × InFlight D)) (seq : ℕ) (f : InFlight D)
          → s.le rto (waited now f) ≡ false
          → Memᴰ (seq, f) fs
          → Memᴰ (seq, f) (collect_loop s rto now fs).1
      early_kept [] seq f early h = elim h [ ]
      early_kept ((n, g) ∷ fs) seq f early (Memᴰ.head e) = rw (collect_step rto now n g fs) (
          let same : f ≡ g = ap (λ (x : ℕ × InFlight D). x.1) e in
          rw (rw same at early) (Memᴰ.head e))
      early_kept ((n, g) ∷ fs) seq f early (Memᴰ.tail h) =
          rw (collect_step rto now n g fs) (Memᴰ.tail (early_kept fs seq f early h))

      sequences_kept :
          (fs : List (ℕ × InFlight D))
          → map (λ x. x.0) (collect_loop s rto now fs).1 ≡ map (λ x. x.0) fs
      sequences_kept [] = rw (collect_none rto now) refl
      sequences_kept ((n, g) ∷ fs) =
          rw (collect_step rto now n g fs) (ap (λ (t : List ℕ). n ∷ t) (sequences_kept fs))

    -- For ordered numbers of seconds and a retransmission estimate that is not NaN: every message
    -- that CollectTimedOut returns is one in flight that has waited for at least MIN_RTO, with the
    -- present time and a send count one higher; every message that has waited for MAX_RTO or longer
    -- is returned; one that has waited for less than MIN_RTO stays as it was; and the sequence
    -- numbers in flight are those from before, so that none is dropped.
    pub collect_timed_out_paced :
        (now : D) (snd : ReliableSender D)
        → s.le (estimate snd) (estimate snd) ≡ true
        → let (out, snd') = collect_timed_out s now snd in
          ((m : InFlight D) → Memᴰ m out → WasDue now snd.in_flight m)
          × ((seq : ℕ) (f : InFlight D)
              → Memᴰ (seq, f) snd.in_flight
              → s.le (max_rto s) (waited now f) ≡ true
              → Memᴰ (resent now f) out)
          × ((seq : ℕ) (f : InFlight D)
              → Memᴰ (seq, f) snd.in_flight
              → s.lt (waited now f) (min_rto s) ≡ true
              → Memᴰ (seq, f) snd'.in_flight)
          × (map (λ x. x.0) snd'.in_flight ≡ map (λ x. x.0) snd.in_flight)
    unfolding collect_timed_out
    collect_timed_out_paced now snd number =
        let rto : D = current_rto s snd in
        let (low, high) = current_rto_bounds snd number in
        (
          λ m h. collect_loop-WasDue rto now snd.in_flight m low h,
          λ seq f h long.
              due_collected rto now snd.in_flight seq f (laws.le_trans _ _ _ high long) h,
          λ seq f h short. early_kept rto now snd.in_flight seq f (too_early rto now f low short) h,
          sequences_kept rto now snd.in_flight,
        )
      where
        too_early :
            (rto now : D) (f : InFlight D)
            → s.le (min_rto s) rto ≡ true
            → s.lt (waited now f) (min_rto s) ≡ true
            → s.le rto (waited now f) ≡ false
        too_early rto now f low short = elim (Bool-cases (s.le rto (waited now f))) [
          | inr e ↦ e
          | inl e ↦
              let no : s.lt (waited now f) (min_rto s) ≡ false =
                laws.le_not_lt _ _ (laws.le_trans _ _ _ low e) in
              cc
        ]
