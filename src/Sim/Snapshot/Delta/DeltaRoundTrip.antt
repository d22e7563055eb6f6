-- ===== src/Sim/Snapshot/Delta/DeltaRoundTrip.antt =====
-- A delta snapshot is decoded to the fields that its masks name.
use earth_rise_game.Prelude.{
  ℕ, ◌%◌, ◌^◌, ◌<◌, ◌≡◌, Bool, true, false, List, [], ◌∷◌, ◌++◌, arith, if◌then◌else◌, Bool-cases,
  inl, inr,
}
use earth_rise_game.Prelude.Int.{ℤ}
use earth_rise_game.Serde.BitStream.RoundTrip.{Field}
use earth_rise_game.Serde.Parser.{Parser, to_uint32}
use earth_rise_game.Serde.Parser.Sequence.{
  Parses, IsInt32, done-Parses, then-Parses, get8, get16, get32, get_i32, get_bits, get_check,
}
use earth_rise_game.Sim.Snapshot.Delta.{
  DeltaRecord, empty_record, has, zig_zag32, un_zig_zag32, narrow32, delta_pos, delta_sector,
  delta_hp, delta_shape, delta_owner, delta_kind, delta_tomb, read_if, read_sector, read_qpos,
  read_hp, read_shape, read_owner, read_kind, read_changed, read_delta_record,
}
use earth_rise_game.Sim.Snapshot.Delta.ZigZag.{zig_zag32-lt, un_zig_zag32-zig_zag32, narrow32_lem}

-- The fields of a record fit the widths of their types, the sector 32 bits, and the quantized
-- position its 20 bits.
pub record IsRecord (r : DeltaRecord) : Type 0 where
  pub net_id : r.net_id < 2 ^ 32
  pub mask : r.mask < 2 ^ 8
  pub sector_x : IsInt32 r.sector_x
  pub sector_y : IsInt32 r.sector_y
  pub sector_z : IsInt32 r.sector_z
  pub qpos_x : r.qpos_x < 2 ^ 20
  pub qpos_y : r.qpos_y < 2 ^ 20
  pub qpos_z : r.qpos_z < 2 ^ 20
  pub hp : IsInt32 r.hp
  pub shape_id : r.shape_id < 2 ^ 16
  pub owner_player : r.owner_player < 2 ^ 32
  pub kind : r.kind < 2 ^ 8

-- What is left of a part when its flag is not set.
abbrev pub part {ℓ} : {A : Type ℓ} → Bool → A → A → A
part flag there gone = if flag then there else gone

-- What a record says: the fields that its mask names, and the initial values of the others.
abbrev said_sector : DeltaRecord → DeltaRecord → DeltaRecord
said_sector r b =
    part (has r.mask delta_sector)
      (record b { sector_x = r.sector_x; sector_y = r.sector_y; sector_z = r.sector_z }) b

abbrev said_pos : DeltaRecord → DeltaRecord → DeltaRecord
said_pos r b =
    part (has r.mask delta_pos)
      (record b { qpos_x = r.qpos_x; qpos_y = r.qpos_y; qpos_z = r.qpos_z }) b

abbrev said_hp : DeltaRecord → DeltaRecord → DeltaRecord
said_hp r b = part (has r.mask delta_hp) (record b { hp = r.hp }) b

abbrev said_shape : DeltaRecord → DeltaRecord → DeltaRecord
said_shape r b = part (has r.mask delta_shape) (record b { shape_id = r.shape_id }) b

abbrev said_owner : DeltaRecord → DeltaRecord → DeltaRecord
said_owner r b = part (has r.mask delta_owner) (record b { owner_player = r.owner_player }) b

abbrev said_kind : DeltaRecord → DeltaRecord → DeltaRecord
said_kind r b = part (has r.mask delta_kind) (record b { kind = r.kind }) b

abbrev pub bare : DeltaRecord → DeltaRecord
bare r = record empty_record { net_id = r.net_id; mask = r.mask }

unfoldable pub said : DeltaRecord → DeltaRecord
said r =
    if has r.mask delta_tomb
    then bare r
    else said_kind r (said_owner r (said_shape r (said_hp r (said_pos r (said_sector r (bare r))))))

-- The fields on the wire.
abbrev pub sector_fields : DeltaRecord → List Field
sector_fields r =
    part (has r.mask delta_sector)
      ((zig_zag32 (narrow32 r.sector_x), 32)
        ∷ (zig_zag32 (narrow32 r.sector_y), 32)
        ∷ (zig_zag32 (narrow32 r.sector_z), 32)
        ∷ [])
      []

abbrev pub pos_fields : DeltaRecord → List Field
pos_fields r =
    part (has r.mask delta_pos) ((r.qpos_x, 20) ∷ (r.qpos_y, 20) ∷ (r.qpos_z, 20) ∷ []) []

abbrev pub hp_fields : DeltaRecord → List Field
hp_fields r = part (has r.mask delta_hp) ((to_uint32 r.hp, 32) ∷ []) []

abbrev pub shape_fields : DeltaRecord → List Field
shape_fields r = part (has r.mask delta_shape) ((r.shape_id, 16) ∷ []) []

abbrev pub owner_fields : DeltaRecord → List Field
owner_fields r = part (has r.mask delta_owner) ((r.owner_player, 32) ∷ []) []

abbrev pub kind_fields : DeltaRecord → List Field
kind_fields r = part (has r.mask delta_kind) ((r.kind, 8) ∷ []) []

abbrev pub changed_fields : DeltaRecord → List Field
changed_fields r =
    sector_fields r
    ++ (pos_fields r
        ++ (hp_fields r ++ (shape_fields r ++ (owner_fields r ++ (kind_fields r ++ [])))))

unfoldable pub record_fields : DeltaRecord → List Field
record_fields r = (r.net_id, 32) ∷ (r.mask, 8) ∷ part (has r.mask delta_tomb) [] (changed_fields r)

read_if-Parses :
    (flag : Bool) (read_part : DeltaRecord → Parser DeltaRecord) (b b' : DeltaRecord)
    (fs : List Field)
    → Parses (read_part b) fs b'
    → Parses (read_if flag read_part b) (part flag fs []) (part flag b' b)
unfolding read_if
read_if-Parses true read_part b b' fs h = h
read_if-Parses false read_part b b' fs h = done-Parses b

module _ (r : DeltaRecord) (v : IsRecord r) where
  read_sector-Parses :
      (b : DeltaRecord)
      → Parses (read_if (has r.mask delta_sector) read_sector b) (sector_fields r) (said_sector r b)
  unfolding read_sector
  read_sector-Parses b = read_if-Parses _ read_sector b _ _ (
      get32 _ _ (zig_zag32-lt _) (
        get32 _ _ (zig_zag32-lt _) (
          get32 _ _ (zig_zag32-lt _) (
            rw (back r.sector_x v.sector_x, back r.sector_y v.sector_y, back r.sector_z v.sector_z)
              (done-Parses _)))))
    where
      back : (x : ℤ) → IsInt32 x → un_zig_zag32 (zig_zag32 (narrow32 x)) ≡ x
      back x h = rw (narrow32_lem x h) (un_zig_zag32-zig_zag32 x h)

  read_qpos-Parses :
      (b : DeltaRecord)
      → Parses (read_if (has r.mask delta_pos) read_qpos b) (pos_fields r) (said_pos r b)
  unfolding read_qpos
  read_qpos-Parses b = read_if-Parses _ read_qpos b _ _ (
      get_bits _ _ 20 (v.qpos_x, omega arith, omega arith)
        (get_bits _ _ 20 (v.qpos_y, omega arith, omega arith)
          (get_bits _ _ 20 (v.qpos_z, omega arith, omega arith)
            (rw (kept r.qpos_x v.qpos_x, kept r.qpos_y v.qpos_y, kept r.qpos_z v.qpos_z)
              (done-Parses _)))))
    where
      kept : (x : ℕ) → x < 2 ^ 20 → x % 2 ^ 32 ≡ x
      kept x h = omega arith

  read_hp-Parses :
      (b : DeltaRecord)
      → Parses (read_if (has r.mask delta_hp) read_hp b) (hp_fields r) (said_hp r b)
  unfolding read_hp
  read_hp-Parses b = read_if-Parses _ read_hp b _ _ (get_i32 _ _ v.hp (done-Parses _))

  read_shape-Parses :
      (b : DeltaRecord)
      → Parses (read_if (has r.mask delta_shape) read_shape b) (shape_fields r) (said_shape r b)
  unfolding read_shape
  read_shape-Parses b = read_if-Parses _ read_shape b _ _ (get16 _ _ v.shape_id (done-Parses _))

  read_owner-Parses :
      (b : DeltaRecord)
      → Parses (read_if (has r.mask delta_owner) read_owner b) (owner_fields r) (said_owner r b)
  unfolding read_owner
  read_owner-Parses b = read_if-Parses _ read_owner b _ _ (get32 _ _ v.owner_player (done-Parses _))

  read_kind-Parses :
      (b : DeltaRecord)
      → Parses (read_if (has r.mask delta_kind) read_kind b) (kind_fields r) (said_kind r b)
  unfolding read_kind
  read_kind-Parses b = read_if-Parses _ read_kind b _ _ (get8 _ _ v.kind (done-Parses _))

  read_changed-Parses :
      (b : DeltaRecord)
      → Parses (read_changed r.mask b) (changed_fields r) (
        true,
        said_kind r (said_owner r (said_shape r (said_hp r (said_pos r (said_sector r b))))),
      )
  unfolding read_changed
  read_changed-Parses b = then-Parses _ (sector_fields r) _ (read_sector-Parses b) (
      then-Parses _ (pos_fields r) _ (read_qpos-Parses _) (
        then-Parses _ (hp_fields r) _ (read_hp-Parses _) (
          then-Parses _ (shape_fields r) _ (read_shape-Parses _) (
            then-Parses _ (owner_fields r) _ (read_owner-Parses _) (
              then-Parses _ (kind_fields r) [] (read_kind-Parses _)
                (get_check _ (done-Parses _)))))))

  pub read_delta_record-Parses : Parses read_delta_record (record_fields r) (true, said r)
  unfolding read_delta_record record_fields said
  read_delta_record-Parses = get32 _ _ v.net_id (
      get8 _ _ v.mask (
        get_check _ (elim (Bool-cases (has r.mask delta_tomb)) [
          | inl e ↦ rw e (get_check _ (done-Parses _))
          | inr e ↦ rw e (read_changed-Parses (bare r))
        ])))
