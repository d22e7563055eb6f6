-- ===== src/Sim/Snapshot/Delta/DeltaMessage.antt =====
-- What EncodeDeltaSnapshot writes, and how it is decoded.
use earth_rise_game.Prelude.{
  ℕ, ◌^◌, ◌<◌, ◌≡◌, refl, ap, sym, ◌∙◌, Bool, true, false, List, [], ◌∷◌, ◌++◌, map, length,
  if◌then◌else◌, All, append-nil, append_assoc, Bool-cases, inl, inr,
}
use native.Mathlib.Nat.{mod-eq_of_lt}
use earth_rise_game.Serde.BitStream.{
  BitWriter, write, write_uint8, write_uint16, write_uint32, flush,
}
use earth_rise_game.Serde.BitStream.RoundTrip.{Field, write_all, write_all-append}
use earth_rise_game.Serde.Buffer.{new_write_buffer}
use earth_rise_game.Serde.Parser.{to_uint32}
use earth_rise_game.Serde.Parser.Sequence.{
  Parses, done-Parses, then-Parses, get16, get32, get_check, fields_of,
}
use earth_rise_game.Serde.Parser.Message.{message, parse-message}
use earth_rise_game.Sim.Snapshot.Delta.{
  DeltaRecord, DeltaSnapshot, has, zig_zag32, narrow32, delta_pos, delta_sector, delta_hp,
  delta_shape, delta_owner, delta_kind, delta_tomb, write_sector, write_qpos, write_delta_record,
  write_records, encode_delta_snapshot, read_records, read_delta_snapshot, decode_delta_snapshot,
}
use earth_rise_game.Sim.Snapshot.Delta.DeltaRoundTrip.{
  IsRecord, part, said, record_fields, changed_fields, sector_fields, pos_fields, hp_fields,
  shape_fields, owner_fields, kind_fields, read_delta_record-Parses,
}

write_part :
    (flag : Bool) (f : BitWriter → BitWriter) (fs : List Field) (w : BitWriter)
    → f w ≡ write_all fs w
    → (if flag then f w else w) ≡ write_all (part flag fs []) w
unfolding write_all
write_part true f fs w h = h
write_part false f fs w h = refl

-- Two parts, one after the other.
both_parts :
    (f : BitWriter → BitWriter) (fs gs : List Field) (w w' : BitWriter)
    → w' ≡ write_all fs w
    → ((u : BitWriter) → f u ≡ write_all gs u)
    → f w' ≡ write_all (fs ++ gs) w
both_parts f fs gs w w' e h = h w' ∙ ap (write_all gs) e ∙ sym (write_all-append fs gs w)

write_changed_lem :
    (r : DeltaRecord) (w : BitWriter)
    → (let w = if has r.mask delta_sector then write_sector r w else w in
        let w = if has r.mask delta_pos then write_qpos r w else w in
        let w = if has r.mask delta_hp then write_uint32 (to_uint32 r.hp) w else w in
        let w = if has r.mask delta_shape then write_uint16 r.shape_id w else w in
        let w = if has r.mask delta_owner then write_uint32 r.owner_player w else w in
        if has r.mask delta_kind then write_uint8 r.kind w else w)
      ≡ write_all (changed_fields r) w
write_changed_lem r w =
    both_parts _ (sector_fields r) _ w _ (write_part _ (write_sector r) _ w (sector w)) λ w.
      both_parts _ (pos_fields r) _ w _ (write_part _ (write_qpos r) _ w (qpos w)) λ w.
        both_parts _ (hp_fields r) _ w _
          (write_part _ (write_uint32 (to_uint32 r.hp)) _ w (one32 _ w))
          λ w.
            both_parts _ (shape_fields r) _ w _
              (write_part _ (write_uint16 r.shape_id) _ w (one16 _ w))
              λ w.
                both_parts _ (owner_fields r) _ w _
                  (write_part _ (write_uint32 r.owner_player) _ w (one32 _ w))
                  λ w.
                    write_part _ (write_uint8 r.kind) _ w (one8 _ w)
                    ∙ ap (λ (fs : List Field). write_all fs w) (sym (append-nil (kind_fields r)))
  where
    sector :
        (w : BitWriter)
        → write_sector r w
          ≡ write_all
              ((zig_zag32 (narrow32 r.sector_x), 32)
                ∷ (zig_zag32 (narrow32 r.sector_y), 32)
                ∷ (zig_zag32 (narrow32 r.sector_z), 32)
                ∷ [])
              w
    sector w = unfold write_sector write_all write_uint32 in refl

    qpos :
        (w : BitWriter)
        → write_qpos r w ≡ write_all ((r.qpos_x, 20) ∷ (r.qpos_y, 20) ∷ (r.qpos_z, 20) ∷ []) w
    qpos w = unfold write_qpos write_all in refl

    one32 : (v : ℕ) (w : BitWriter) → write_uint32 v w ≡ write_all ((v, 32) ∷ []) w
    one32 v w = unfold write_uint32 write_all in refl

    one16 : (v : ℕ) (w : BitWriter) → write_uint16 v w ≡ write_all ((v, 16) ∷ []) w
    one16 v w = unfold write_uint16 write_all in refl

    one8 : (v : ℕ) (w : BitWriter) → write_uint8 v w ≡ write_all ((v, 8) ∷ []) w
    one8 v w = unfold write_uint8 write_all in refl

write_delta_record_lem :
    (r : DeltaRecord) (w : BitWriter) → write_delta_record r w ≡ write_all (record_fields r) w
unfolding write_delta_record record_fields write_all write_uint8 write_uint32
write_delta_record_lem r w = elim (Bool-cases (has r.mask delta_tomb)) [
  | inl e ↦ rw e refl
  | inr e ↦ rw e (write_changed_lem r (write r.mask 8 (write r.net_id 32 w)))
]

write_records_lem :
    (rs : List DeltaRecord) (w : BitWriter)
    → write_records rs w ≡ write_all (fields_of record_fields rs) w
unfolding write_records write_all
write_records_lem [] w = refl
write_records_lem (r ∷ rs) w =
    write_records_lem rs (write_delta_record r w)
    ∙ ap (write_all (fields_of record_fields rs)) (write_delta_record_lem r w)
    ∙ sym (write_all-append (record_fields r) (fields_of record_fields rs) w)

read_records-Parses :
    (rs before : List DeltaRecord)
    → All IsRecord rs
    → Parses
        (read_records (length rs) before)
        (fields_of record_fields rs)
        (true, before ++ map said rs)
unfolding read_records
read_records-Parses [] before v = rw (append-nil before) (get_check _ (done-Parses (true, before)))
read_records-Parses (r ∷ rs) before v =
    then-Parses _ (record_fields r) (fields_of record_fields rs) (read_delta_record-Parses r v.0) (
      rw (append_assoc before (said r ∷ []) (map said rs)) at
        (read_records-Parses rs (before ++ (said r ∷ [])) v.1))

-- What a delta snapshot that is to be sent whole fits: the fields' widths on the wire.
pub record IsDeltaSnapshot (snap : DeltaSnapshot) : Type 0 where
  pub tick : snap.tick < 2 ^ 32
  pub count : length snap.records < 2 ^ 16
  pub records : All IsRecord snap.records

unfoldable pub delta_fields : DeltaSnapshot → List Field
delta_fields snap =
    (snap.tick, 32) ∷ (length snap.records, 16) ∷ fields_of record_fields snap.records

pub encode_delta_snapshot_lem :
    (snap : DeltaSnapshot)
    → length snap.records < 2 ^ 16
    → encode_delta_snapshot snap ≡ message (delta_fields snap)
unfolding encode_delta_snapshot delta_fields flush write_uint16 write_uint32 write_all
encode_delta_snapshot_lem snap few =
    ap
      (λ (n : ℕ).
        (write_records snap.records (write_uint16 n (write_uint32 snap.tick new_write_buffer))).buf)
      (mod-eq_of_lt few)
    ∙ ap (λ (w : BitWriter). w.buf) (write_records_lem snap.records _)

pub read_delta_snapshot-Parses :
    (snap : DeltaSnapshot)
    → IsDeltaSnapshot snap
    → Parses read_delta_snapshot
        (delta_fields snap)
        (true, record { tick = snap.tick; records = map said snap.records })
unfolding read_delta_snapshot delta_fields
read_delta_snapshot-Parses snap v = get32 _ _ v.tick (
    get16 _ _ v.count (
      rw (sym (append-nil (fields_of record_fields snap.records))) (
        then-Parses _ (fields_of record_fields snap.records) []
          (read_records-Parses snap.records [] v.records) (done-Parses _))))

-- A delta snapshot with a 32-bit tick and fewer than 2 ^ 16 records, whose sectors fit 32 bits, whose
-- quantized positions fit 20 bits and whose other fields fit their types, is decoded, with the
-- result true, to the same tick and to records that hold the fields named by their masks, and
-- initial values in the others; of a tombstone only the net id and the mask.
pub decode-encode_delta_snapshot :
    (snap out : DeltaSnapshot)
    → IsDeltaSnapshot snap
    → decode_delta_snapshot (encode_delta_snapshot snap) out
      ≡ (true, record { tick = snap.tick; records = map said snap.records })
unfolding decode_delta_snapshot
decode-encode_delta_snapshot snap out v =
    let (good, val, after) =
      parse-message read_delta_snapshot (delta_fields snap) _ (read_delta_snapshot-Parses snap v) in
    rw (encode_delta_snapshot_lem snap v.count, good) val
