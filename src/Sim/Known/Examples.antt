-- ===== src/Sim/Known/Examples.antt =====
-- A client that acknowledges the first of two snapshots.
use earth_rise_game.Prelude.{ℕ, ◌≡◌, refl, [], ◌∷◌, some, arith}
use earth_rise_game.Prelude.Int.{pos}
use earth_rise_game.Prelude.Maps.{lookup, insert}
use earth_rise_game.Sim.Snapshot.{SnapshotEntity}
use earth_rise_game.Sim.Known.{
  ClientKnownState, new_state, base, stage, trim, record_sent, fold_known, ack_loop, ack,
}
use earth_rise_game.Sim.Known.Acks.{IsKnown, Ascending, last_acked, record_sent-IsKnown, ack_lem}

abbrev ship : ℕ → SnapshotEntity
ship shape = record {
  net_id = 7;
  kind = 1;
  pos_x = pos 0;
  pos_y = pos 0;
  pos_z = pos 0;
  offset_x = 0;
  offset_y = 0;
  offset_z = 0;
  hp = pos 10;
  shape_id = shape;
  owner_player = 0;
}

new-IsKnown : IsKnown new_state
new-IsKnown = record { ascending = tt; bounded = omega arith }

abbrev two_sent : ClientKnownState
two_sent = record_sent 4 (ship 1 ∷ []) (record_sent 6 (ship 2 ∷ []) new_state)

two_sent-IsKnown : IsKnown two_sent
two_sent-IsKnown =
    record_sent-IsKnown 4 (ship 1 ∷ []) (record_sent 6 (ship 2 ∷ []) new_state)
      (record_sent-IsKnown 6 (ship 2 ∷ []) new_state new-IsKnown)

ack_lem_example :
    IsKnown (ack 5 two_sent)
    × Ascending 6 (ack 5 two_sent).pending
    × ((n : ℕ) → base n (ack 5 two_sent) ≡ last_acked n 5 two_sent.pending (base n two_sent))
    × (ack 5 (ack 5 two_sent) ≡ ack 5 two_sent)
ack_lem_example = ack_lem 5 two_sent two_sent-IsKnown

first_acked : base 7 (ack 5 two_sent) ≡ some (ship 1)
unfolding base ack ack_loop fold_known record_sent stage trim lookup insert
first_acked = refl
