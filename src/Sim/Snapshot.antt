-- ===== src/Sim/Snapshot.antt =====
-- NeuronCore/Snapshot.h, the full snapshot of a tick. An `EntityKind` is the byte that holds it, and
-- a float is its 32 bits.
pub mod FullRoundTrip
pub mod Delta
mod Examples
use earth_rise_game.Prelude.{
  ℕ, zero, suc, ◌+◌, ◌%◌, ◌^◌, Bool, true, false, not, List, [], ◌∷◌, ◌++◌, if◌then◌else◌, length,
}
use earth_rise_game.Prelude.Int.{ℤ, pos}
use earth_rise_game.Serde.BitStream.{BitWriter, write_uint8, write_uint16, write_uint32, flush}
use earth_rise_game.Serde.Buffer.{
  ReadBuffer, new_write_buffer, new_read_buffer, write_int64, is_good,
}
use earth_rise_game.Serde.Parser.{
  Parser, ◌>>=◌, done, u8, u16, u32, f32, i32, i64, check, to_uint32, write_float,
}

-- `struct SnapshotEntity`.
pub record SnapshotEntity : Type 0 where
  pub net_id : ℕ
  pub kind : ℕ
  pub pos_x : ℤ
  pub pos_y : ℤ
  pub pos_z : ℤ
  pub offset_x : ℕ
  pub offset_y : ℕ
  pub offset_z : ℕ
  pub hp : ℤ
  pub shape_id : ℕ
  pub owner_player : ℕ

-- `struct Snapshot`.
pub record Snapshot : Type 0 where
  pub tick : ℕ
  pub entities : List SnapshotEntity

-- The body of the loop of `EncodeSnapshot`.
unfoldable pub write_entity : SnapshotEntity → BitWriter → BitWriter
write_entity e w =
    let w = write_uint32 e.net_id w in
    let w = write_uint8 e.kind w in
    let w = write_int64 e.pos_x w in
    let w = write_int64 e.pos_y w in
    let w = write_int64 e.pos_z w in
    let w = write_float e.offset_x w in
    let w = write_float e.offset_y w in
    let w = write_float e.offset_z w in
    let w = write_uint32 (to_uint32 e.hp) w in
    let w = write_uint16 e.shape_id w in write_uint32 e.owner_player w

unfoldable pub write_entities : List SnapshotEntity → BitWriter → BitWriter
write_entities [] w = w
write_entities (e ∷ es) w = write_entities es (write_entity e w)

-- `EncodeSnapshot`. The number of entities is cut to 16 bits.
unfoldable pub encode_snapshot : Snapshot → List ℕ
encode_snapshot snap =
    let w = write_uint32 snap.tick new_write_buffer in
    let w = write_uint16 (length snap.entities % 2 ^ 16) w in
    (flush (write_entities snap.entities w)).buf

-- The body of the loop of `DecodeSnapshot`, up to its test.
unfoldable pub read_entity : Parser SnapshotEntity
read_entity = do
  net_id ← u32
  kind ← u8
  x ← i64
  y ← i64
  z ← i64
  off_x ← f32
  off_y ← f32
  off_z ← f32
  hp ← i32
  shape_id ← u16
  owner ← u32
  done (record {
    net_id = net_id;
    kind = kind;
    pos_x = x;
    pos_y = y;
    pos_z = z;
    offset_x = off_x;
    offset_y = off_y;
    offset_z = off_z;
    hp = hp;
    shape_id = shape_id;
    owner_player = owner;
  })

-- The loop of `DecodeSnapshot` for the `n` entities that are left, and its return value.
unfoldable pub read_entities : ℕ → List SnapshotEntity → Parser (Bool × List SnapshotEntity)
read_entities zero entities = check >>= λ ok. done (ok, entities)
read_entities (suc n) entities = do
  e ← read_entity
  ok ← check
  if ok then read_entities n (entities ++ (e ∷ [])) else done (false, entities)

-- What `DecodeSnapshot` reads from a good buffer.
unfoldable pub read_snapshot : Parser (Bool × Snapshot)
read_snapshot = do
  tick ← u32
  count ← u16
  result ← read_entities count []
  done (result.0, record { tick = tick; entities = result.1 })

-- `DecodeSnapshot`: the return value, and `out`.
unfoldable pub decode_snapshot : List ℕ → Snapshot → Bool × Snapshot
decode_snapshot body out =
    let rb = new_read_buffer body in if not (is_good rb) then (false, out) else (read_snapshot rb).0
