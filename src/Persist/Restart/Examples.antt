-- ===== src/Persist/Restart/Examples.antt =====
-- Warm restart of a small state.
use earth_rise_game.Prelude.{◌≡◌, true, [], ◌∷◌, arith}
use earth_rise_game.Prelude.Int.{pos, negsuc}
use earth_rise_game.Persist.Restart.{
  PersistBase, PersistNpc, PersistState, empty_persist_state, encode_state, decode_state,
}
use earth_rise_game.Persist.Restart.Fields.{IsBase, IsNpc}
use earth_rise_game.Persist.Restart.RoundTrip.{IsState, decode-encode_state}

abbrev home : PersistBase
home = record {
  net_id = 1;
  owner_account = 77;
  x = negsuc 9;
  y = pos 0;
  z = pos 5;
  shield_hp = pos 100;
  armor_hp = pos 50;
  hull_hp = negsuc 0;
  ore = 0x3F800000;
  ice = 0;
  gas = 0;
  fuel = 0;
  nav_phase = 2;
  base_state = 1;
}

abbrev raider : PersistNpc
raider = record {
  net_id = 5;
  x = pos 1;
  y = pos 2;
  z = negsuc 2;
  hp = pos 9;
  site_id = 3;
  ai_state = 1;
}

abbrev small_state : PersistState
small_state = record empty_persist_state {
  tick = 300;
  outbox_seq = 8;
  bases = home ∷ [];
  npcs = raider ∷ [];
}

home-IsBase : IsBase home
home-IsBase = record {
  net_id = omega arith;
  owner_account = omega arith;
  x = omega arith;
  y = omega arith;
  z = omega arith;
  shield_hp = omega arith;
  armor_hp = omega arith;
  hull_hp = omega arith;
  ore = omega arith;
  ice = omega arith;
  gas = omega arith;
  fuel = omega arith;
  nav_phase = omega arith;
  base_state = omega arith;
}

raider-IsNpc : IsNpc raider
raider-IsNpc = record {
  net_id = omega arith;
  x = omega arith;
  y = omega arith;
  z = omega arith;
  hp = omega arith;
  site_id = omega arith;
  ai_state = omega arith;
}

small-IsState : IsState small_state
small-IsState = record {
  tick = omega arith;
  outbox_seq = omega arith;
  bases = (home-IsBase, tt);
  base_count = omega arith;
  ships = tt;
  ship_count = omega arith;
  builds = tt;
  build_count = omega arith;
  npcs = (raider-IsNpc, tt);
  npc_count = omega arith;
}

decode-encode_state_example :
    decode_state (encode_state small_state) empty_persist_state ≡ (true, small_state)
decode-encode_state_example = decode-encode_state small_state empty_persist_state small-IsState
