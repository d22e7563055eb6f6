-- ===== src/Serde/Buffer.antt =====
-- NeuronCore/Serde.h: a bit stream behind a version header.
pub mod Version
mod Examples
use earth_rise_game.Prelude.{
  ℕ, zero, suc, ◌+◌, ◌-◌, ◌%◌, ◌^◌, Bool, true, false, not, ◌&&◌, List, [], ◌∷◌, ltb, ◌==◌,
  if◌then◌else◌,
}
use earth_rise_game.Prelude.Int.{ℤ, pos, negsuc}
use earth_rise_game.Serde.BitStream.{
  BitWriter, BitReader, new_writer, new_reader, write, write_uint8, write_uint32, write_uint64,
  flush, read, read_uint8, read_uint32, read_uint64, align_to_byte,
}

-- `PROTOCOL_VERSION`.
abbrev pub protocol_version : ℕ
protocol_version = 1

-- `class WriteBuffer`, whose one field is the writer. Its other functions are the writer's own.
unfoldable pub new_write_buffer : BitWriter
new_write_buffer = write_uint32 protocol_version new_writer

-- The conversion of an `int64_t` to a `uint64_t`, and back.
unfoldable pub to_uint64 : ℤ → ℕ
to_uint64 (pos n) = n % 2 ^ 64
to_uint64 (negsuc n) = (2 ^ 64 - 1 - n % 2 ^ 64) % 2 ^ 64

unfoldable pub to_int64 : ℕ → ℤ
to_int64 w = if ltb w (2 ^ 63) then pos w else negsuc (2 ^ 64 - w - 1)

-- `WriteInt64`.
unfoldable pub write_int64 : ℤ → BitWriter → BitWriter
write_int64 v w = write_uint64 (to_uint64 v) w

-- The loop of `WriteBytes`, and `WriteBytes`.
pub bytes_loop : List ℕ → BitWriter → BitWriter
bytes_loop [] w = w
bytes_loop (b ∷ bs) w = bytes_loop bs (write_uint8 b w)

pub write_bytes : List ℕ → BitWriter → BitWriter
write_bytes bs w = bytes_loop bs (flush w)

-- `class ReadBuffer`.
pub record ReadBuffer : Type 0 where
  pub reader : BitReader
  pub version_mismatch : Bool

-- The constructor, which reads the version.
pub new_read_buffer : List ℕ → ReadBuffer
new_read_buffer bytes =
    let (ver, r) = read_uint32 (new_reader bytes) in
    record { reader = r; version_mismatch = not (ver == protocol_version) }

-- A read of the buffer is one of its reader: `ReadBits`, and so for the other widths.
unfoldable pub read_bits : ℕ → ReadBuffer → ℕ × ReadBuffer
read_bits bits b = let (v, r) = read bits b.reader in (v, record b { reader = r })

-- `ReadInt64`.
pub read_int64 : ReadBuffer → ℤ × ReadBuffer
read_int64 b = let (v, r) = read_uint64 b.reader in (to_int64 v, record b { reader = r })

-- The loop of `ReadBytes` over `n` bytes, and `ReadBytes`.
pub read_bytes_loop : (n : ℕ) → BitReader → List ℕ × BitReader
read_bytes_loop zero r = ([], r)
read_bytes_loop (suc n) r =
    let (b, r') = read_uint8 r in let (bs, r'') = read_bytes_loop n r' in (b ∷ bs, r'')

pub read_bytes : ℕ → ReadBuffer → List ℕ × ReadBuffer
read_bytes n b =
    let (bs, r) = read_bytes_loop n (align_to_byte b.reader) in (bs, record b { reader = r })

-- `IsGood`.
unfoldable pub is_good : ReadBuffer → Bool
is_good b = not b.reader.error && not b.version_mismatch

-- `ReadBits` of each width in turn.
pub read_fields : List ℕ → ReadBuffer → List ℕ × ReadBuffer
read_fields [] b = ([], b)
read_fields (bits ∷ widths) b =
    let (v, b') = read_bits bits b in let (vs, b'') = read_fields widths b' in (v ∷ vs, b'')
