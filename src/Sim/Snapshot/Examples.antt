-- ===== src/Sim/Snapshot/Examples.antt =====
-- Snapshots on concrete entities.
use earth_rise_game.Prelude.{◌+◌, ◌/◌, ◌≤◌, ◌≡◌, refl, true, [], ◌∷◌, ◌++◌, map, max, length, arith}
use earth_rise_game.Prelude.Int.{pos, negsuc}
use earth_rise_game.Sim.Snapshot.{SnapshotEntity, Snapshot, encode_snapshot, decode_snapshot}
use earth_rise_game.Sim.Snapshot.FullRoundTrip.{IsEntity, decode-encode_snapshot}
use earth_rise_game.Sim.Snapshot.Delta.{
  DeltaRecord, DeltaSnapshot, delta_pos, delta_tomb, has, delta_record_bits, delta_header_bits,
  encode_delta_snapshot, decode_delta_snapshot,
}
use earth_rise_game.Sim.Snapshot.Delta.DeltaRoundTrip.{IsRecord, said}
use earth_rise_game.Sim.Snapshot.Delta.DeltaMessage.{IsDeltaSnapshot, decode-encode_delta_snapshot}
use earth_rise_game.Sim.Snapshot.Delta.Budget.{
  length-encode_delta_snapshot, record_bits, spilled, budget_loop, build_budgeted_snapshot,
  build_budgeted_snapshot_lem,
}

abbrev ship : SnapshotEntity
ship = record {
  net_id = 7;
  kind = 1;
  pos_x = negsuc 41;
  pos_y = pos 1000000;
  pos_z = pos 0;
  offset_x = 0x3F800000;
  offset_y = 0;
  offset_z = 0;
  hp = negsuc 0;
  shape_id = 3;
  owner_player = 12;
}

ship-IsEntity : IsEntity ship
ship-IsEntity = record {
  net_id = omega arith;
  kind = omega arith;
  pos_x = omega arith;
  pos_y = omega arith;
  pos_z = omega arith;
  offset_x = omega arith;
  offset_y = omega arith;
  offset_z = omega arith;
  hp = omega arith;
  shape_id = omega arith;
  owner_player = omega arith;
}

abbrev one_ship : Snapshot
one_ship = record { tick = 99; entities = ship ∷ [] }

abbrev no_ship : Snapshot
no_ship = record { tick = 0; entities = [] }

decode-encode_snapshot_example :
    decode_snapshot (encode_snapshot one_ship) no_ship ≡ (true, one_ship)
decode-encode_snapshot_example =
    decode-encode_snapshot one_ship no_ship
      (record { tick = omega arith; count = omega arith; entities = (ship-IsEntity, tt) })

-- A record that names its position and nothing else, and a tombstone.
abbrev moved : DeltaRecord
moved = record {
  net_id = 7;
  mask = delta_pos;
  sector_x = pos 0;
  sector_y = pos 0;
  sector_z = pos 0;
  qpos_x = 5;
  qpos_y = 0xFFFFF;
  qpos_z = 0;
  hp = pos 40;
  shape_id = 2;
  owner_player = 1;
  kind = 3;
}

abbrev gone : DeltaRecord
gone = record moved { net_id = 8; mask = delta_tomb }

moved-IsRecord : IsRecord moved
moved-IsRecord = record {
  net_id = omega arith;
  mask = omega arith;
  sector_x = omega arith;
  sector_y = omega arith;
  sector_z = omega arith;
  qpos_x = omega arith;
  qpos_y = omega arith;
  qpos_z = omega arith;
  hp = omega arith;
  shape_id = omega arith;
  owner_player = omega arith;
  kind = omega arith;
}

gone-IsRecord : IsRecord gone
gone-IsRecord = record {
  net_id = omega arith;
  mask = omega arith;
  sector_x = omega arith;
  sector_y = omega arith;
  sector_z = omega arith;
  qpos_x = omega arith;
  qpos_y = omega arith;
  qpos_z = omega arith;
  hp = omega arith;
  shape_id = omega arith;
  owner_player = omega arith;
  kind = omega arith;
}

abbrev two_records : DeltaSnapshot
two_records = record { tick = 100; records = moved ∷ gone ∷ [] }

two_records-IsDeltaSnapshot : IsDeltaSnapshot two_records
two_records-IsDeltaSnapshot = record {
  tick = omega arith;
  count = omega arith;
  records = (moved-IsRecord, (gone-IsRecord, tt));
}

length-encode_delta_snapshot_example :
    length (encode_delta_snapshot two_records)
    ≡ (delta_header_bits + record_bits (moved ∷ gone ∷ []) + 7) / 8
length-encode_delta_snapshot_example =
    length-encode_delta_snapshot two_records two_records-IsDeltaSnapshot

decode-encode_delta_snapshot_example :
    decode_delta_snapshot (encode_delta_snapshot two_records) (record { tick = 0; records = [] })
    ≡ (true, record { tick = 100; records = map said (moved ∷ gone ∷ []) })
decode-encode_delta_snapshot_example =
    decode-encode_delta_snapshot two_records (record { tick = 0; records = [] })
      two_records-IsDeltaSnapshot

-- With 25 bytes there is room for the first record, and not for the tombstone behind it.
build_budgeted_snapshot_example :
    let (snap, overflow) = build_budgeted_snapshot 100 (moved ∷ gone ∷ []) 25 in
    (length (encode_delta_snapshot snap) ≤ max 25 10)
    × (map (λ r. r.net_id) snap.records ++ overflow ≡ spilled (moved ∷ gone ∷ []))
build_budgeted_snapshot_example =
    build_budgeted_snapshot_lem 100 (moved ∷ gone ∷ []) 25 (omega arith) (omega arith)
      (moved-IsRecord, (gone-IsRecord, tt))

budget_of_25 : (build_budgeted_snapshot 100 (moved ∷ gone ∷ []) 25).1 ≡ 8 ∷ []
unfolding build_budgeted_snapshot budget_loop spilled delta_record_bits has
budget_of_25 = refl
