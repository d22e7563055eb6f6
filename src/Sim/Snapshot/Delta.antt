-- ===== src/Sim/Snapshot/Delta.antt =====
-- NeuronCore/Snapshot.h, the delta records: a changed-field mask, and the fields that it names.
pub mod ZigZag
pub mod DeltaRoundTrip
pub mod DeltaMessage
pub mod Budget
use earth_rise_game.Prelude.{
  ℕ, zero, suc, ◌+◌, ◌-◌, ◌*◌, ◌/◌, ◌%◌, ◌^◌, bit_and, bit_or, bit_xor, Bool, true, false, not,
  ◌||◌, List, [], ◌∷◌, ◌++◌, ltb, ◌==◌, if◌then◌else◌, length,
}
use earth_rise_game.Prelude.Int.{ℤ, pos, negsuc}
use earth_rise_game.Serde.BitStream.{
  BitWriter, write, write_uint8, write_uint16, write_uint32, flush,
}
use earth_rise_game.Serde.Buffer.{
  ReadBuffer, new_write_buffer, new_read_buffer, read_bits, is_good, to_uint64,
}
use earth_rise_game.Serde.Parser.{
  Parser, ◌>>=◌, done, u8, u16, u32, i32, check, to_uint32, to_int32,
}

-- `enum DeltaFlag`.
abbrev pub delta_pos : ℕ
delta_pos = 1

abbrev pub delta_sector : ℕ
delta_sector = 2

abbrev pub delta_hp : ℕ
delta_hp = 4

abbrev pub delta_shape : ℕ
delta_shape = 8

abbrev pub delta_owner : ℕ
delta_owner = 16

abbrev pub delta_kind : ℕ
delta_kind = 32

abbrev pub delta_tomb : ℕ
delta_tomb = 128

-- `POS_QUANT_BITS_PER_AXIS` and `DELTA_HEADER_BITS`.
abbrev pub pos_quant_bits_per_axis : ℕ
pos_quant_bits_per_axis = 20

abbrev pub delta_header_bits : ℕ
delta_header_bits = 32 + 32 + 16

-- `ZigZag32`: the sign, which the arithmetic shift by 31 spreads over the word, is folded in.
unfoldable pub zig_zag32 : ℤ → ℕ
zig_zag32 v =
    bit_xor (to_uint32 v * 2 % 2 ^ 32) (if ltb (to_uint32 v) (2 ^ 31) then 0 else 2 ^ 32 - 1)

-- `UnZigZag32`. `~b + 1` on 32 bits is 2 ^ 32 - b.
unfoldable pub un_zig_zag32 : ℕ → ℤ
un_zig_zag32 v = to_int32 (bit_xor (v / 2) ((2 ^ 32 - 1 - bit_and v 1 + 1) % 2 ^ 32))

-- `static_cast<int32_t>` of an `int64_t`.
unfoldable pub narrow32 : ℤ → ℤ
narrow32 v = to_int32 (to_uint64 v % 2 ^ 32)

-- `struct DeltaRecord`.
pub record DeltaRecord : Type 0 where
  pub net_id : ℕ
  pub mask : ℕ
  pub sector_x : ℤ
  pub sector_y : ℤ
  pub sector_z : ℤ
  pub qpos_x : ℕ
  pub qpos_y : ℕ
  pub qpos_z : ℕ
  pub hp : ℤ
  pub shape_id : ℕ
  pub owner_player : ℕ
  pub kind : ℕ

unfoldable pub empty_record : DeltaRecord
empty_record = record {
  net_id = 0;
  mask = 0;
  sector_x = pos 0;
  sector_y = pos 0;
  sector_z = pos 0;
  qpos_x = 0;
  qpos_y = 0;
  qpos_z = 0;
  hp = pos 0;
  shape_id = 0xFFFF;
  owner_player = 0;
  kind = 0;
}

-- `struct DeltaSnapshot`.
pub record DeltaSnapshot : Type 0 where
  pub tick : ℕ
  pub records : List DeltaRecord

-- `r.mask & flag` as a condition.
unfoldable pub has : ℕ → ℕ → Bool
has mask flag = not (bit_and mask flag == 0)

-- `DeltaRecordBits`.
unfoldable pub delta_record_bits : DeltaRecord → ℕ
delta_record_bits r =
    let bits = 32 + 8 in
    if has r.mask delta_tomb
    then bits
    else (let bits = if has r.mask delta_sector then bits + 3 * 32 else bits in
        let bits = if has r.mask delta_pos then bits + 3 * pos_quant_bits_per_axis else bits in
        let bits = if has r.mask delta_hp then bits + 32 else bits in
        let bits = if has r.mask delta_shape then bits + 16 else bits in
        let bits = if has r.mask delta_owner then bits + 32 else bits in
        if has r.mask delta_kind then bits + 8 else bits)

-- `WriteDeltaRecord`.
unfoldable pub write_sector : DeltaRecord → BitWriter → BitWriter
write_sector r w =
    let w = write_uint32 (zig_zag32 (narrow32 r.sector_x)) w in
    let w = write_uint32 (zig_zag32 (narrow32 r.sector_y)) w in
    write_uint32 (zig_zag32 (narrow32 r.sector_z)) w

unfoldable pub write_qpos : DeltaRecord → BitWriter → BitWriter
write_qpos r w =
    let w = write r.qpos_x pos_quant_bits_per_axis w in
    let w = write r.qpos_y pos_quant_bits_per_axis w in write r.qpos_z pos_quant_bits_per_axis w

unfoldable pub write_delta_record : DeltaRecord → BitWriter → BitWriter
write_delta_record r w =
    let w = write_uint8 r.mask (write_uint32 r.net_id w) in
    if has r.mask delta_tomb
    then w
    else (let w = if has r.mask delta_sector then write_sector r w else w in
        let w = if has r.mask delta_pos then write_qpos r w else w in
        let w = if has r.mask delta_hp then write_uint32 (to_uint32 r.hp) w else w in
        let w = if has r.mask delta_shape then write_uint16 r.shape_id w else w in
        let w = if has r.mask delta_owner then write_uint32 r.owner_player w else w in
        if has r.mask delta_kind then write_uint8 r.kind w else w)

-- `EncodeDeltaSnapshot`.
unfoldable pub write_records : List DeltaRecord → BitWriter → BitWriter
write_records [] w = w
write_records (r ∷ rs) w = write_records rs (write_delta_record r w)

unfoldable pub encode_delta_snapshot : DeltaSnapshot → List ℕ
encode_delta_snapshot snap =
    let w = write_uint32 snap.tick new_write_buffer in
    let w = write_uint16 (length snap.records % 2 ^ 16) w in
    (flush (write_records snap.records w)).buf

-- A part of `ReadDeltaRecord`: what it reads if the flag is there.
unfoldable pub read_if :
    Bool → (DeltaRecord → Parser DeltaRecord) → DeltaRecord → Parser DeltaRecord
read_if flag read_part r = if flag then read_part r else done r

unfoldable pub read_sector : DeltaRecord → Parser DeltaRecord
read_sector r = do
  x ← u32
  y ← u32
  z ← u32
  done
      (record r { sector_x = un_zig_zag32 x; sector_y = un_zig_zag32 y; sector_z = un_zig_zag32 z })

unfoldable pub read_qpos : DeltaRecord → Parser DeltaRecord
read_qpos r = do
  x ← read_bits pos_quant_bits_per_axis
  y ← read_bits pos_quant_bits_per_axis
  z ← read_bits pos_quant_bits_per_axis
  done (record r { qpos_x = x % 2 ^ 32; qpos_y = y % 2 ^ 32; qpos_z = z % 2 ^ 32 })

unfoldable pub read_hp : DeltaRecord → Parser DeltaRecord
read_hp r = i32 >>= λ hp. done (record r { hp = hp })

unfoldable pub read_shape : DeltaRecord → Parser DeltaRecord
read_shape r = u16 >>= λ shape_id. done (record r { shape_id = shape_id })

unfoldable pub read_owner : DeltaRecord → Parser DeltaRecord
read_owner r = u32 >>= λ owner. done (record r { owner_player = owner })

unfoldable pub read_kind : DeltaRecord → Parser DeltaRecord
read_kind r = u8 >>= λ kind. done (record r { kind = kind })

-- The fields that `ReadDeltaRecord` reads behind the mask.
unfoldable pub read_changed : ℕ → DeltaRecord → Parser (Bool × DeltaRecord)
read_changed mask r = do
  r ← read_if (has mask delta_sector) read_sector r
  r ← read_if (has mask delta_pos) read_qpos r
  r ← read_if (has mask delta_hp) read_hp r
  r ← read_if (has mask delta_shape) read_shape r
  r ← read_if (has mask delta_owner) read_owner r
  r ← read_if (has mask delta_kind) read_kind r
  good ← check
  done (good, r)

-- `ReadDeltaRecord`: the return value, and the record.
unfoldable pub read_delta_record : Parser (Bool × DeltaRecord)
read_delta_record = do
  net_id ← u32
  mask ← u8
  let r = record empty_record { net_id = net_id; mask = mask }
  ok ← check
  if not ok
      then done (false, r)
      else if has mask delta_tomb
      then (check >>= λ good. done (good, r))
      else read_changed mask r

-- The loop of `DecodeDeltaSnapshot` for the `n` records that are left, and its return value.
unfoldable pub read_records : ℕ → List DeltaRecord → Parser (Bool × List DeltaRecord)
read_records zero records = check >>= λ ok. done (ok, records)
read_records (suc n) records = do
  out ← read_delta_record
  if out.0 then read_records n (records ++ (out.1 ∷ [])) else done (false, records)

unfoldable pub read_delta_snapshot : Parser (Bool × DeltaSnapshot)
read_delta_snapshot = do
  tick ← u32
  count ← u16
  result ← read_records count []
  done (result.0, record { tick = tick; records = result.1 })

-- `DecodeDeltaSnapshot`: the return value, and `out`.
unfoldable pub decode_delta_snapshot : List ℕ → DeltaSnapshot → Bool × DeltaSnapshot
decode_delta_snapshot body out =
    let rb = new_read_buffer body in
    if not (is_good rb) then (false, out) else (read_delta_snapshot rb).0
