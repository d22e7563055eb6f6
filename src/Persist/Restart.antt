-- ===== src/Persist/Restart.antt =====
-- NeuronCore/WarmRestart.h: the snapshot of the persistent state as one blob. A float
-- is its 32 bits; the three slots of `storage` and `cargo` are ore, ice and gas.
pub mod Fields
pub mod RoundTrip
pub mod StateHash
pub mod Hash
mod Examples
use earth_rise_game.Prelude.{
  ℕ, zero, suc, ◌+◌, ◌*◌, ◌/◌, ◌%◌, ◌^◌, bit_xor, Bool, true, false, not, List, [], ◌∷◌,
  if◌then◌else◌, length,
}
use earth_rise_game.Prelude.Int.{ℤ}
use earth_rise_game.Serde.BitStream.{
  BitWriter, write_uint8, write_uint16, write_uint32, write_uint64, flush,
}
use earth_rise_game.Serde.Buffer.{
  ReadBuffer, new_write_buffer, new_read_buffer, write_int64, is_good, to_uint64,
}
use earth_rise_game.Serde.Parser.{
  Parser, ◌>>=◌, done, u8, u16, u32, u64, f32, i32, i64, check, repeat, to_uint32, write_float,
}

-- `struct PersistBase`.
pub record PersistBase : Type 0 where
  pub net_id : ℕ
  pub owner_account : ℕ
  pub x : ℤ
  pub y : ℤ
  pub z : ℤ
  pub shield_hp : ℤ
  pub armor_hp : ℤ
  pub hull_hp : ℤ
  pub ore : ℕ
  pub ice : ℕ
  pub gas : ℕ
  pub fuel : ℕ
  pub nav_phase : ℕ
  pub base_state : ℕ

-- `struct PersistShip`.
pub record PersistShip : Type 0 where
  pub net_id : ℕ
  pub owner_account : ℕ
  pub x : ℤ
  pub y : ℤ
  pub z : ℤ
  pub hp : ℤ
  pub ore : ℕ
  pub ice : ℕ
  pub gas : ℕ
  pub ship_type : ℕ

-- `struct PersistBuild`.
pub record PersistBuild : Type 0 where
  pub owner_account : ℕ
  pub item_def_id : ℕ
  pub progress : ℕ

-- `struct PersistNpc`.
pub record PersistNpc : Type 0 where
  pub net_id : ℕ
  pub x : ℤ
  pub y : ℤ
  pub z : ℤ
  pub hp : ℤ
  pub site_id : ℕ
  pub ai_state : ℕ

-- `struct PersistState`.
pub record PersistState : Type 0 where
  pub tick : ℕ
  pub outbox_seq : ℕ
  pub bases : List PersistBase
  pub ships : List PersistShip
  pub builds : List PersistBuild
  pub npcs : List PersistNpc

abbrev pub empty_persist_state : PersistState
empty_persist_state = record {
  tick = 0;
  outbox_seq = 0;
  bases = [];
  ships = [];
  builds = [];
  npcs = [];
}

-- The body of the loop of `EncodeState` over the bases.
unfoldable pub write_base : PersistBase → BitWriter → BitWriter
write_base b w =
    let w = write_uint32 b.net_id w in
    let w = write_uint64 b.owner_account w in
    let w = write_int64 b.x w in
    let w = write_int64 b.y w in
    let w = write_int64 b.z w in
    let w = write_uint32 (to_uint32 b.shield_hp) w in
    let w = write_uint32 (to_uint32 b.armor_hp) w in
    let w = write_uint32 (to_uint32 b.hull_hp) w in
    let w = write_float b.ore w in
    let w = write_float b.ice w in
    let w = write_float b.gas w in
    let w = write_float b.fuel w in let w = write_uint8 b.nav_phase w in write_uint8 b.base_state w

-- The body of the loop of `EncodeState` over the ships.
unfoldable pub write_ship : PersistShip → BitWriter → BitWriter
write_ship sh w =
    let w = write_uint32 sh.net_id w in
    let w = write_uint64 sh.owner_account w in
    let w = write_int64 sh.x w in
    let w = write_int64 sh.y w in
    let w = write_int64 sh.z w in
    let w = write_uint32 (to_uint32 sh.hp) w in
    let w = write_float sh.ore w in
    let w = write_float sh.ice w in let w = write_float sh.gas w in write_uint8 sh.ship_type w

-- The body of the loop of `EncodeState` over the builds.
unfoldable pub write_build : PersistBuild → BitWriter → BitWriter
write_build bd w =
    let w = write_uint64 bd.owner_account w in
    let w = write_uint32 bd.item_def_id w in write_float bd.progress w

-- The body of the loop of `EncodeState` over the npcs.
unfoldable pub write_npc : PersistNpc → BitWriter → BitWriter
write_npc n w =
    let w = write_uint32 n.net_id w in
    let w = write_int64 n.x w in
    let w = write_int64 n.y w in
    let w = write_int64 n.z w in
    let w = write_uint32 (to_uint32 n.hp) w in
    let w = write_uint16 n.site_id w in write_uint8 n.ai_state w

-- A loop of `EncodeState`, behind the number of its items, which is cut to 32 bits.
unfoldable pub write_items {ℓ} :
    {A : Type ℓ} → (A → BitWriter → BitWriter) → List A → BitWriter → BitWriter
write_items write_item [] w = w
write_items write_item (x ∷ xs) w = write_items write_item xs (write_item x w)

unfoldable pub write_list {ℓ} :
    {A : Type ℓ} → (A → BitWriter → BitWriter) → List A → BitWriter → BitWriter
write_list write_item xs w = write_items write_item xs (write_uint32 (length xs % 2 ^ 32) w)

-- `EncodeState`.
unfoldable pub encode_state : PersistState → List ℕ
encode_state s =
    let w = write_uint64 s.tick new_write_buffer in
    let w = write_uint64 s.outbox_seq w in
    let w = write_list write_base s.bases w in
    let w = write_list write_ship s.ships w in
    let w = write_list write_build s.builds w in
    let w = write_list write_npc s.npcs w in (flush w).buf

-- The body of the loop of `DecodeState` over the bases.
unfoldable pub read_base : Parser PersistBase
read_base = do
  net_id ← u32
  owner_account ← u64
  x ← i64
  y ← i64
  z ← i64
  shield_hp ← i32
  armor_hp ← i32
  hull_hp ← i32
  ore ← f32
  ice ← f32
  gas ← f32
  fuel ← f32
  nav_phase ← u8
  base_state ← u8
  done (record {
    net_id = net_id;
    owner_account = owner_account;
    x = x;
    y = y;
    z = z;
    shield_hp = shield_hp;
    armor_hp = armor_hp;
    hull_hp = hull_hp;
    ore = ore;
    ice = ice;
    gas = gas;
    fuel = fuel;
    nav_phase = nav_phase;
    base_state = base_state;
  })

-- The body of the loop of `DecodeState` over the ships.
unfoldable pub read_ship : Parser PersistShip
read_ship = do
  net_id ← u32
  owner_account ← u64
  x ← i64
  y ← i64
  z ← i64
  hp ← i32
  ore ← f32
  ice ← f32
  gas ← f32
  ship_type ← u8
  done (record {
    net_id = net_id;
    owner_account = owner_account;
    x = x;
    y = y;
    z = z;
    hp = hp;
    ore = ore;
    ice = ice;
    gas = gas;
    ship_type = ship_type;
  })

-- The body of the loop of `DecodeState` over the builds.
unfoldable pub read_build : Parser PersistBuild
read_build = do
  owner_account ← u64
  item_def_id ← u32
  progress ← f32
  done (record { owner_account = owner_account; item_def_id = item_def_id; progress = progress })

-- The body of the loop of `DecodeState` over the npcs.
unfoldable pub read_npc : Parser PersistNpc
read_npc = do
  net_id ← u32
  x ← i64
  y ← i64
  z ← i64
  hp ← i32
  site_id ← u16
  ai_state ← u8
  done (record {
    net_id = net_id;
    x = x;
    y = y;
    z = z;
    hp = hp;
    site_id = site_id;
    ai_state = ai_state;
  })

-- A loop of `DecodeState`, behind the number of its items.
unfoldable pub read_list {ℓ} : {A : Type ℓ} → Parser A → Parser (List A)
read_list read_item = u32 >>= λ n. repeat n read_item

-- What `DecodeState` reads from a good buffer.
unfoldable pub read_state : Parser (Bool × PersistState)
read_state = do
  tick ← u64
  outbox_seq ← u64
  bases ← read_list read_base
  ships ← read_list read_ship
  builds ← read_list read_build
  npcs ← read_list read_npc
  good ← check
  done (
    good,
    record {
      tick = tick;
      outbox_seq = outbox_seq;
      bases = bases;
      ships = ships;
      builds = builds;
      npcs = npcs;
    },
  )

-- `DecodeState`: the return value, and `out`.
unfoldable pub decode_state : List ℕ → PersistState → Bool × PersistState
decode_state blob out =
    let r = new_read_buffer blob in if not (is_good r) then (false, out) else (read_state r).0
