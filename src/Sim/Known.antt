-- ===== src/Sim/Known.antt =====
-- NeuronCore/SnapshotScheduler.h, `ClientKnownState`: what a client has acknowledged. `m_known` is an
-- association list, and `m_pending`, a `std::map`, one whose ticks ascend.
pub mod Acks
mod Examples
use earth_rise_game.Prelude.{ℕ, Bool, List, [], ◌∷◌, Option, ltb, leb, ◌==◌, if◌then◌else◌, length}
use earth_rise_game.Prelude.Maps.{lookup, insert, erase}
use earth_rise_game.Sim.Snapshot.{SnapshotEntity}

abbrev pub max_pending : ℕ
max_pending = 64

-- `class ClientKnownState`.
pub record ClientKnownState : Type 0 where
  pub known : List (ℕ × SnapshotEntity)
  pub pending : List (ℕ × List SnapshotEntity)

abbrev pub new_state : ClientKnownState
new_state = record { known = []; pending = [] }

-- `Base`.
unfoldable pub base : ℕ → ClientKnownState → Option SnapshotEntity
base net_id st = lookup net_id st.known

-- `m_pending[tick] = sent`, at its place in the order of the ticks.
unfoldable pub stage :
    ℕ → List SnapshotEntity → List (ℕ × List SnapshotEntity) → List (ℕ × List SnapshotEntity)
stage tick sent [] = (tick, sent) ∷ []
stage tick sent ((t, s) ∷ pending) =
    let rest = stage tick sent pending in
    if ltb tick t
    then (tick, sent) ∷ (t, s) ∷ pending
    else if t == tick
    then (tick, sent) ∷ pending
    else (t, s) ∷ rest

-- `while (m_pending.size() > MAX_PENDING) m_pending.erase(m_pending.begin())`.
unfoldable pub trim : List (ℕ × List SnapshotEntity) → List (ℕ × List SnapshotEntity)
trim [] = []
trim (p ∷ pending) =
    let rest = trim pending in if ltb max_pending (length (p ∷ pending)) then rest else p ∷ pending

-- `RecordSent`.
unfoldable pub record_sent : ℕ → List SnapshotEntity → ClientKnownState → ClientKnownState
record_sent tick [] st = st
record_sent tick (e ∷ sent) st = record st { pending = trim (stage tick (e ∷ sent) st.pending) }

-- `for (const SnapshotEntity& e : it->second) m_known[e.netId] = e`.
unfoldable pub fold_known :
    List SnapshotEntity → List (ℕ × SnapshotEntity) → List (ℕ × SnapshotEntity)
fold_known [] known = known
fold_known (e ∷ sent) known = fold_known sent (insert e.net_id e known)

-- The loop of `Ack`.
unfoldable pub ack_loop :
    ℕ → List (ℕ × List SnapshotEntity) → List (ℕ × SnapshotEntity) → ClientKnownState
ack_loop tick [] known = record { known = known; pending = [] }
ack_loop tick ((t, sent) ∷ pending) known =
    let rest = ack_loop tick pending (fold_known sent known) in
    if leb t tick then rest else record { known = known; pending = (t, sent) ∷ pending }

-- `Ack`.
unfoldable pub ack : ℕ → ClientKnownState → ClientKnownState
ack tick st = ack_loop tick st.pending st.known

-- `Forget`.
unfoldable pub forget : ℕ → ClientKnownState → ClientKnownState
forget net_id st = record st { known = erase net_id st.known }

-- `KnownCount`.
abbrev pub known_count : ClientKnownState → ℕ
known_count st = length st.known
