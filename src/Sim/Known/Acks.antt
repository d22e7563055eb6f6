-- ===== src/Sim/Known/Acks.antt =====
-- What an acknowledgement makes the base of a client.
use earth_rise_game.Prelude.{
  ℕ, suc, ◌≤◌, ◌≡◌, refl, ap, sym, ◌∙◌, false, List, [], ◌∷◌, Option, some, ltb, leb, ◌==◌,
  if◌then◌else◌, arith, length, Bool-cases, inl, inr,
}
use earth_rise_game.Prelude.Maps.{lookup, insert, lookup-insert}
use earth_rise_game.Sim.Snapshot.{SnapshotEntity}
use earth_rise_game.Sim.Known.{
  ClientKnownState, base, stage, trim, record_sent, fold_known, ack_loop, ack, forget,
}

-- The ticks ascend, from `n` on.
abbrev pub Ascending : ℕ → List (ℕ × List SnapshotEntity) → Type 0
Ascending n [] = Unit
Ascending n ((t, s) ∷ pending) = (n ≤ t) × Ascending (suc t) pending

pub record IsKnown (st : ClientKnownState) : Type 0 where
  pub ascending : Ascending 0 st.pending
  pub bounded : length st.pending ≤ 64

below :
    (n m : ℕ) (pending : List (ℕ × List SnapshotEntity))
    → n ≤ m
    → Ascending m pending
    → Ascending n pending
below n m [] h a = tt
below n m ((t, s) ∷ pending) h a = (omega (arith, h, a.0), a.1)

stage-Ascending :
    (n tick : ℕ) (sent : List SnapshotEntity) (pending : List (ℕ × List SnapshotEntity))
    → n ≤ tick
    → Ascending n pending
    → Ascending n (stage tick sent pending)
unfolding stage
stage-Ascending n tick sent [] h a = (h, tt)
stage-Ascending n tick sent ((t, s) ∷ pending) h a = elim (Bool-cases (ltb tick t)) [
  | inl y ↦ rw y (h, (ground arith, a.1))
  | inr z ↦ elim (Bool-cases (t == tick)) [
    | inl y ↦ rw (z, y) (h, below (suc tick) (suc t) pending (ground arith) a.1)
    | inr w ↦ rw (z, w) (a.0, stage-Ascending (suc t) tick sent pending (ground arith) a.1)
  ]
]

trim-Ascending :
    (n : ℕ) (pending : List (ℕ × List SnapshotEntity))
    → Ascending n pending
    → Ascending n (trim pending)
unfolding trim
trim-Ascending n [] a = tt
trim-Ascending n ((t, s) ∷ pending) a = elim (Bool-cases (ltb 64 (suc (length pending)))) [
  | inl y ↦ rw y (trim-Ascending n pending (below n (suc t) pending (omega (arith, a.0)) a.1))
  | inr z ↦ rw z a
]

length-trim : (pending : List (ℕ × List SnapshotEntity)) → length (trim pending) ≤ 64
unfolding trim
length-trim [] = omega arith
length-trim (p ∷ pending) = elim (Bool-cases (ltb 64 (suc (length pending)))) [
  | inl y ↦ rw y (length-trim pending)
  | inr z ↦ rw z (ground arith)
]

pub record_sent-IsKnown :
    (tick : ℕ) (sent : List SnapshotEntity) (st : ClientKnownState)
    → IsKnown st
    → IsKnown (record_sent tick sent st)
unfolding record_sent
record_sent-IsKnown tick [] st v = v
record_sent-IsKnown tick (e ∷ sent) st v = record {
  ascending =
      trim-Ascending 0 _ (stage-Ascending 0 tick (e ∷ sent) st.pending (omega arith) v.ascending);
  bounded = length-trim (stage tick (e ∷ sent) st.pending);
}

-- Everything that is still staged is of a later tick than `tick`.
later :
    (tick : ℕ) (pending : List (ℕ × List SnapshotEntity)) (known : List (ℕ × SnapshotEntity))
    (n : ℕ)
    → Ascending n pending
    → (Ascending n (ack_loop tick pending known).pending)
      × Ascending (suc tick) (ack_loop tick pending known).pending
      × (length (ack_loop tick pending known).pending ≤ length pending)
unfolding ack_loop
later tick [] known n a = (tt, tt, omega arith)
later tick ((t, s) ∷ pending) known n a =
    let (x, y, z) = later tick pending (fold_known s known) (suc t) a.1 in
    elim (Bool-cases (leb t tick)) [
      | inl q ↦ rw q (below n (suc t) _ (omega (arith, a.0)) x, y, omega (arith, z))
      | inr q ↦ rw q (a, (ground arith, a.1), omega arith)
    ]

-- The last state of an entity in a snapshot, or else the old one.
unfoldable pub last_sent : ℕ → List SnapshotEntity → Option SnapshotEntity → Option SnapshotEntity
last_sent n [] old = old
last_sent n (e ∷ sent) old = last_sent n sent (if e.net_id == n then some e else old)

-- The last state of an entity in the snapshots of the ticks up to `tick`, or else the old one.
unfoldable pub last_acked :
    ℕ → ℕ → List (ℕ × List SnapshotEntity) → Option SnapshotEntity → Option SnapshotEntity
last_acked n tick [] old = old
last_acked n tick ((t, sent) ∷ pending) old =
    let newer = last_acked n tick pending (last_sent n sent old) in
    let same = last_acked n tick pending old in if leb t tick then newer else same

lookup-fold_known :
    (n : ℕ) (sent : List SnapshotEntity) (known : List (ℕ × SnapshotEntity))
    → lookup n (fold_known sent known) ≡ last_sent n sent (lookup n known)
unfolding fold_known last_sent
lookup-fold_known n [] known = refl
lookup-fold_known n (e ∷ sent) known =
    lookup-fold_known n sent (insert e.net_id e known)
    ∙ ap (last_sent n sent) (lookup-insert n e.net_id e known)

none_acked :
    (n tick : ℕ) (pending : List (ℕ × List SnapshotEntity)) (old : Option SnapshotEntity)
    → Ascending (suc tick) pending
    → last_acked n tick pending old ≡ old
unfolding last_acked
none_acked n tick [] old a = refl
none_acked n tick ((t, s) ∷ pending) old a =
    let late : leb t tick ≡ false = ground (arith, a.0) in
    rw late
      (none_acked n tick pending old (below (suc tick) (suc t) pending (omega (arith, a.0)) a.1))

lookup-ack_loop :
    (n tick k : ℕ) (pending : List (ℕ × List SnapshotEntity)) (known : List (ℕ × SnapshotEntity))
    → Ascending k pending
    → lookup n (ack_loop tick pending known).known ≡ last_acked n tick pending (lookup n known)
unfolding ack_loop last_acked
lookup-ack_loop n tick k [] known a = refl
lookup-ack_loop n tick k ((t, s) ∷ pending) known a = elim (Bool-cases (leb t tick)) [
  | inl y ↦ rw y (
      lookup-ack_loop n tick (suc t) pending (fold_known s known) a.1
      ∙ ap (last_acked n tick pending) (lookup-fold_known n s known))
  | inr z ↦ rw z (
      sym (
        none_acked n tick pending (lookup n known)
          (below (suc tick) (suc t) pending (ground arith) a.1)))
]

-- Nothing staged is of an acknowledged tick: an acknowledgement changes nothing.
ack_none :
    (tick : ℕ) (pending : List (ℕ × List SnapshotEntity)) (known : List (ℕ × SnapshotEntity))
    → Ascending (suc tick) pending
    → ack_loop tick pending known ≡ record { known = known; pending = pending }
unfolding ack_loop
ack_none tick [] known a = refl
ack_none tick ((t, s) ∷ pending) known a =
    let late : leb t tick ≡ false = ground (arith, a.0) in rw late refl

-- In a state that the operations make: Ack makes the base of each entity its last state in the staged
-- snapshots of the ticks up to the acknowledged one, or leaves it if there is none. It drops those
-- snapshots, keeps the state well formed, and a second Ack of the tick changes nothing.
pub ack_lem :
    (tick : ℕ) (st : ClientKnownState)
    → IsKnown st
    → IsKnown (ack tick st)
      × Ascending (suc tick) (ack tick st).pending
      × ((n : ℕ) → base n (ack tick st) ≡ last_acked n tick st.pending (base n st))
      × (ack tick (ack tick st) ≡ ack tick st)
unfolding ack base
ack_lem tick st v =
    let (x, y, z) = later tick st.pending st.known 0 v.ascending in
    (
      record { ascending = x; bounded = omega (arith, z, v.bounded) },
      y,
      λ n. lookup-ack_loop n tick 0 st.pending st.known v.ascending,
      ack_none tick (ack_loop tick st.pending st.known).pending
          (ack_loop tick st.pending st.known).known y,
    )

-- RecordSent and Forget keep the state well formed, with at most 64 snapshots staged, and RecordSent
-- leaves every base as it is: a snapshot that is never acknowledged makes no base.
pub record_sent_lem :
    (tick : ℕ) (sent : List SnapshotEntity) (forgotten : ℕ) (st : ClientKnownState)
    → IsKnown st
    → IsKnown (record_sent tick sent st)
      × IsKnown (forget forgotten st)
      × ((n : ℕ) → base n (record_sent tick sent st) ≡ base n st)
record_sent_lem tick sent forgotten st v =
    (record_sent-IsKnown tick sent st v, forgotten_ok, λ n. kept n sent)
  where
    forgotten_ok : IsKnown (forget forgotten st)
    forgotten_ok = unfold forget in record { ascending = v.ascending; bounded = v.bounded }

    kept : (n : ℕ) (sent : List SnapshotEntity) → base n (record_sent tick sent st) ≡ base n st
    kept n [] = unfold record_sent in refl
    kept n (e ∷ sent) = unfold record_sent base in refl
