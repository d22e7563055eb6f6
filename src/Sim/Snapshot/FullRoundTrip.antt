-- ===== src/Sim/Snapshot/FullRoundTrip.antt =====
-- A full snapshot is decoded to what was encoded.
use earth_rise_game.Prelude.{
  ℕ, ◌^◌, ◌<◌, ◌≡◌, refl, ap, sym, ◌∙◌, true, List, [], ◌∷◌, ◌++◌, length, All, append-nil,
  append_assoc,
}
use native.Mathlib.Nat.{mod-eq_of_lt}
use earth_rise_game.Serde.BitStream.{
  BitWriter, write_uint8, write_uint16, write_uint32, write_uint64, flush,
}
use earth_rise_game.Serde.BitStream.RoundTrip.{Field, write_all, write_all-append}
use earth_rise_game.Serde.Buffer.{new_write_buffer, write_int64, to_uint64}
use earth_rise_game.Serde.Buffer.Version.{IsInt64}
use earth_rise_game.Serde.Parser.{to_uint32}
use earth_rise_game.Serde.Parser.Sequence.{
  Parses, IsInt32, done-Parses, then-Parses, get8, get16, get32, get_i64, get_i32, get_check,
  fields_of,
}
use earth_rise_game.Serde.Parser.Message.{message, parse-message}
use earth_rise_game.Sim.Snapshot.{
  SnapshotEntity, Snapshot, write_entity, write_entities, encode_snapshot, read_entity,
  read_entities, read_snapshot, decode_snapshot,
}

-- The fields of an entity fit the widths of their types.
pub record IsEntity (e : SnapshotEntity) : Type 0 where
  pub net_id : e.net_id < 2 ^ 32
  pub kind : e.kind < 2 ^ 8
  pub pos_x : IsInt64 e.pos_x
  pub pos_y : IsInt64 e.pos_y
  pub pos_z : IsInt64 e.pos_z
  pub offset_x : e.offset_x < 2 ^ 32
  pub offset_y : e.offset_y < 2 ^ 32
  pub offset_z : e.offset_z < 2 ^ 32
  pub hp : IsInt32 e.hp
  pub shape_id : e.shape_id < 2 ^ 16
  pub owner_player : e.owner_player < 2 ^ 32

abbrev entity_fields : SnapshotEntity → List Field
entity_fields e =
    (e.net_id, 32)
    ∷ (e.kind, 8)
    ∷ (to_uint64 e.pos_x, 64)
    ∷ (to_uint64 e.pos_y, 64)
    ∷ (to_uint64 e.pos_z, 64)
    ∷ (e.offset_x, 32)
    ∷ (e.offset_y, 32)
    ∷ (e.offset_z, 32)
    ∷ (to_uint32 e.hp, 32)
    ∷ (e.shape_id, 16)
    ∷ (e.owner_player, 32)
    ∷ []

write_entity_lem :
    (e : SnapshotEntity) (w : BitWriter) → write_entity e w ≡ write_all (entity_fields e) w
unfolding write_entity write_all write_uint8 write_uint16 write_uint32 write_uint64 write_int64
write_entity_lem e w = refl

read_entity-Parses : (e : SnapshotEntity) → IsEntity e → Parses read_entity (entity_fields e) e
unfolding read_entity
read_entity-Parses e v = get32 _ _ v.net_id (
    get8 _ _ v.kind (
      get_i64 _ _ v.pos_x (
        get_i64 _ _ v.pos_y (
          get_i64 _ _ v.pos_z (
            get32 _ _ v.offset_x (
              get32 _ _ v.offset_y (
                get32 _ _ v.offset_z (
                  get_i32 _ _ v.hp
                    (get16 _ _ v.shape_id (get32 _ _ v.owner_player (done-Parses e)))))))))))

write_entities_lem :
    (es : List SnapshotEntity) (w : BitWriter)
    → write_entities es w ≡ write_all (fields_of entity_fields es) w
unfolding write_entities write_all
write_entities_lem [] w = refl
write_entities_lem (e ∷ es) w =
    write_entities_lem es (write_entity e w)
    ∙ ap (write_all (fields_of entity_fields es)) (write_entity_lem e w)
    ∙ sym (write_all-append (entity_fields e) (fields_of entity_fields es) w)

read_entities-Parses :
    (es before : List SnapshotEntity)
    → All IsEntity es
    → Parses (read_entities (length es) before) (fields_of entity_fields es) (true, before ++ es)
unfolding read_entities
read_entities-Parses [] before v = rw (append-nil before) (get_check _ (done-Parses (true, before)))
read_entities-Parses (e ∷ es) before v =
    then-Parses _ (entity_fields e) (fields_of entity_fields es) (read_entity-Parses e v.0) (
      get_check _ (
        rw (append_assoc before (e ∷ []) es) at (read_entities-Parses es (before ++ (e ∷ [])) v.1)))

-- What a snapshot fits: a 32-bit tick, fewer than 2 ^ 16 entities, and the types of their fields.
pub record IsSnapshot (snap : Snapshot) : Type 0 where
  pub tick : snap.tick < 2 ^ 32
  pub count : length snap.entities < 2 ^ 16
  pub entities : All IsEntity snap.entities

snapshot_fields : Snapshot → List Field
snapshot_fields snap =
    (snap.tick, 32) ∷ (length snap.entities, 16) ∷ fields_of entity_fields snap.entities

encode_snapshot_lem :
    (snap : Snapshot) → IsSnapshot snap → encode_snapshot snap ≡ message (snapshot_fields snap)
unfolding encode_snapshot snapshot_fields flush write_uint16 write_uint32 write_all
encode_snapshot_lem snap v =
    ap
      (λ (n : ℕ).
        (write_entities snap.entities
          (write_uint16 n (write_uint32 snap.tick new_write_buffer))).buf)
      (mod-eq_of_lt v.count)
    ∙ ap (λ (w : BitWriter). w.buf) (write_entities_lem snap.entities _)

read_snapshot-Parses :
    (snap : Snapshot) → IsSnapshot snap → Parses read_snapshot (snapshot_fields snap) (true, snap)
unfolding read_snapshot snapshot_fields
read_snapshot-Parses snap v = get32 _ _ v.tick (
    get16 _ _ v.count (
      rw (sym (append-nil (fields_of entity_fields snap.entities))) (
        then-Parses _ (fields_of entity_fields snap.entities) []
          (read_entities-Parses snap.entities [] v.entities) (done-Parses (true, snap)))))

-- A snapshot whose fields fit their types, with fewer than 2 ^ 16 entities, is decoded to itself from
-- what EncodeSnapshot makes of it, with the result true, whatever `out` held.
pub decode-encode_snapshot :
    (snap out : Snapshot)
    → IsSnapshot snap
    → decode_snapshot (encode_snapshot snap) out ≡ (true, snap)
unfolding decode_snapshot
decode-encode_snapshot snap out v =
    let (good, val, after) =
      parse-message read_snapshot (snapshot_fields snap) (true, snap)
        (read_snapshot-Parses snap v) in
    rw (encode_snapshot_lem snap v, good) val
