-- ===== src/Persist/Restart/Fields.antt =====
-- What the parts of a blob fit, and the fields that they are on the wire.
use earth_rise_game.Prelude.{◌<◌, ◌^◌, ◌≡◌, refl, List, [], ◌∷◌}
use earth_rise_game.Serde.BitStream.{
  BitWriter, write_uint8, write_uint16, write_uint32, write_uint64,
}
use earth_rise_game.Serde.BitStream.RoundTrip.{Field, write_all}
use earth_rise_game.Serde.Buffer.{write_int64, to_uint64}
use earth_rise_game.Serde.Buffer.Version.{IsInt64}
use earth_rise_game.Serde.Parser.{to_uint32}
use earth_rise_game.Serde.Parser.Sequence.{
  Parses, IsInt32, done-Parses, get8, get16, get32, get64, get_i64, get_i32,
}
use earth_rise_game.Persist.Restart.{
  PersistBase, PersistShip, PersistBuild, PersistNpc, write_base, write_ship, write_build,
  write_npc, read_base, read_ship, read_build, read_npc,
}

-- The fields of `PersistBase` fit the widths of their types.
pub record IsBase (b : PersistBase) : Type 0 where
  pub net_id : b.net_id < 2 ^ 32
  pub owner_account : b.owner_account < 2 ^ 64
  pub x : IsInt64 b.x
  pub y : IsInt64 b.y
  pub z : IsInt64 b.z
  pub shield_hp : IsInt32 b.shield_hp
  pub armor_hp : IsInt32 b.armor_hp
  pub hull_hp : IsInt32 b.hull_hp
  pub ore : b.ore < 2 ^ 32
  pub ice : b.ice < 2 ^ 32
  pub gas : b.gas < 2 ^ 32
  pub fuel : b.fuel < 2 ^ 32
  pub nav_phase : b.nav_phase < 2 ^ 8
  pub base_state : b.base_state < 2 ^ 8

abbrev pub base_fields : PersistBase → List Field
base_fields b =
    (b.net_id, 32)
    ∷ (b.owner_account, 64)
    ∷ (to_uint64 b.x, 64)
    ∷ (to_uint64 b.y, 64)
    ∷ (to_uint64 b.z, 64)
    ∷ (to_uint32 b.shield_hp, 32)
    ∷ (to_uint32 b.armor_hp, 32)
    ∷ (to_uint32 b.hull_hp, 32)
    ∷ (b.ore, 32)
    ∷ (b.ice, 32)
    ∷ (b.gas, 32)
    ∷ (b.fuel, 32)
    ∷ (b.nav_phase, 8)
    ∷ (b.base_state, 8)
    ∷ []

pub write_base_lem :
    (b : PersistBase) (w : BitWriter) → write_base b w ≡ write_all (base_fields b) w
unfolding write_base write_all write_uint8 write_uint16 write_uint32 write_uint64 write_int64
write_base_lem b w = refl

pub read_base-Parses : (b : PersistBase) → IsBase b → Parses read_base (base_fields b) b
unfolding read_base
read_base-Parses b ok = get32 _ _ ok.net_id (
    get64 _ _ ok.owner_account (
      get_i64 _ _ ok.x (
        get_i64 _ _ ok.y (
          get_i64 _ _ ok.z (
            get_i32 _ _ ok.shield_hp (
              get_i32 _ _ ok.armor_hp (
                get_i32 _ _ ok.hull_hp (
                  get32 _ _ ok.ore (
                    get32 _ _ ok.ice (
                      get32 _ _ ok.gas (
                        get32 _ _ ok.fuel (
                          get8 _ _ ok.nav_phase (get8 _ _ ok.base_state (done-Parses b))))))))))))))

-- The fields of `PersistShip` fit the widths of their types.
pub record IsShip (sh : PersistShip) : Type 0 where
  pub net_id : sh.net_id < 2 ^ 32
  pub owner_account : sh.owner_account < 2 ^ 64
  pub x : IsInt64 sh.x
  pub y : IsInt64 sh.y
  pub z : IsInt64 sh.z
  pub hp : IsInt32 sh.hp
  pub ore : sh.ore < 2 ^ 32
  pub ice : sh.ice < 2 ^ 32
  pub gas : sh.gas < 2 ^ 32
  pub ship_type : sh.ship_type < 2 ^ 8

abbrev pub ship_fields : PersistShip → List Field
ship_fields sh =
    (sh.net_id, 32)
    ∷ (sh.owner_account, 64)
    ∷ (to_uint64 sh.x, 64)
    ∷ (to_uint64 sh.y, 64)
    ∷ (to_uint64 sh.z, 64)
    ∷ (to_uint32 sh.hp, 32)
    ∷ (sh.ore, 32)
    ∷ (sh.ice, 32)
    ∷ (sh.gas, 32)
    ∷ (sh.ship_type, 8)
    ∷ []

pub write_ship_lem :
    (sh : PersistShip) (w : BitWriter) → write_ship sh w ≡ write_all (ship_fields sh) w
unfolding write_ship write_all write_uint8 write_uint16 write_uint32 write_uint64 write_int64
write_ship_lem sh w = refl

pub read_ship-Parses : (sh : PersistShip) → IsShip sh → Parses read_ship (ship_fields sh) sh
unfolding read_ship
read_ship-Parses sh ok = get32 _ _ ok.net_id (
    get64 _ _ ok.owner_account (
      get_i64 _ _ ok.x (
        get_i64 _ _ ok.y (
          get_i64 _ _ ok.z (
            get_i32 _ _ ok.hp (
              get32 _ _ ok.ore
                (get32 _ _ ok.ice (get32 _ _ ok.gas (get8 _ _ ok.ship_type (done-Parses sh))))))))))

-- The fields of `PersistBuild` fit the widths of their types.
pub record IsBuild (bd : PersistBuild) : Type 0 where
  pub owner_account : bd.owner_account < 2 ^ 64
  pub item_def_id : bd.item_def_id < 2 ^ 32
  pub progress : bd.progress < 2 ^ 32

abbrev pub build_fields : PersistBuild → List Field
build_fields bd = (bd.owner_account, 64) ∷ (bd.item_def_id, 32) ∷ (bd.progress, 32) ∷ []

pub write_build_lem :
    (bd : PersistBuild) (w : BitWriter) → write_build bd w ≡ write_all (build_fields bd) w
unfolding write_build write_all write_uint8 write_uint16 write_uint32 write_uint64 write_int64
write_build_lem bd w = refl

pub read_build-Parses : (bd : PersistBuild) → IsBuild bd → Parses read_build (build_fields bd) bd
unfolding read_build
read_build-Parses bd ok =
    get64 _ _ ok.owner_account (get32 _ _ ok.item_def_id (get32 _ _ ok.progress (done-Parses bd)))

-- The fields of `PersistNpc` fit the widths of their types.
pub record IsNpc (n : PersistNpc) : Type 0 where
  pub net_id : n.net_id < 2 ^ 32
  pub x : IsInt64 n.x
  pub y : IsInt64 n.y
  pub z : IsInt64 n.z
  pub hp : IsInt32 n.hp
  pub site_id : n.site_id < 2 ^ 16
  pub ai_state : n.ai_state < 2 ^ 8

abbrev pub npc_fields : PersistNpc → List Field
npc_fields n =
    (n.net_id, 32)
    ∷ (to_uint64 n.x, 64)
    ∷ (to_uint64 n.y, 64)
    ∷ (to_uint64 n.z, 64)
    ∷ (to_uint32 n.hp, 32)
    ∷ (n.site_id, 16)
    ∷ (n.ai_state, 8)
    ∷ []

pub write_npc_lem : (n : PersistNpc) (w : BitWriter) → write_npc n w ≡ write_all (npc_fields n) w
unfolding write_npc write_all write_uint8 write_uint16 write_uint32 write_uint64 write_int64
write_npc_lem n w = refl

pub read_npc-Parses : (n : PersistNpc) → IsNpc n → Parses read_npc (npc_fields n) n
unfolding read_npc
read_npc-Parses n ok = get32 _ _ ok.net_id (
    get_i64 _ _ ok.x (
      get_i64 _ _ ok.y (
        get_i64 _ _ ok.z
          (get_i32 _ _ ok.hp (get16 _ _ ok.site_id (get8 _ _ ok.ai_state (done-Parses n)))))))
