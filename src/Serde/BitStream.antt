-- ===== src/Serde/BitStream.antt =====
-- NeuronCore/BitStream.h: fields of 1 to 64 bits, packed into bytes with the high bit first.
pub mod Written
pub mod Writing
pub mod Bytes
pub mod Readback
pub mod Reading
pub mod Underflow
pub mod RoundTrip
mod Examples
use earth_rise_game.Prelude.{
  ℕ, zero, suc, ◌+◌, ◌-◌, ◌*◌, ◌/◌, ◌%◌, ◌^◌, min, bit_and, bit_or, Bool, true, false, not, List,
  [], ◌∷◌, ◌++◌, ltb, leb, ◌==◌, if◌then◌else◌, length, get_or,
}

-- `class BitWriter`: `bits_free` bits of the last byte are free.
pub record BitWriter : Type 0 where
  pub buf : List ℕ
  pub bits_free : ℕ

unfoldable pub new_writer : BitWriter
new_writer = record { buf = []; bits_free = 0 }

-- `m_buf.push_back(0)` where the last byte is full.
pub open_byte : BitWriter → BitWriter
open_byte w = if w.bits_free == 0 then record { buf = w.buf ++ (0 ∷ []); bits_free = 8 } else w

-- `m_buf.back() |= x`.
pub or_back : List ℕ → ℕ → List ℕ
or_back [] x = []
or_back (b ∷ []) x = bit_or b x ∷ []
or_back (b ∷ c ∷ bs) x = b ∷ or_back (c ∷ bs) x

-- The round of `Write`: the bits that are left after it, and the writer.
pub write_chunk : ℕ → ℕ → BitWriter → ℕ × BitWriter
write_chunk value bits_left w =
    let w' = open_byte w in
    let chunk = min bits_left w'.bits_free in
    let shift = w'.bits_free - chunk in
    (
      bits_left - chunk,
      record {
        buf = or_back w'.buf (value / 2 ^ (bits_left - chunk) * 2 ^ shift % 2 ^ 64 % 2 ^ 8);
        bits_free = w'.bits_free - chunk;
      },
    )

-- The loop of `Write`, on rounds: one for each bit is enough.
pub write_loop : ℕ → ℕ → ℕ → BitWriter → BitWriter
write_loop zero value bits_left w = w
write_loop (suc n) value bits_left w =
    let (left, w') = write_chunk value bits_left w in
    let rest = write_loop n value left w' in if bits_left == 0 then w else rest

-- `Write`, of a 64-bit value.
pub write : ℕ → ℕ → BitWriter → BitWriter
write value bits w =
    write_loop bits (if ltb bits 64 then bit_and value (2 ^ bits - 1) else value) bits w

-- `WriteUint8` to `WriteUint64`, and `WriteBool`.
unfoldable pub write_uint8 : ℕ → BitWriter → BitWriter
write_uint8 v w = write v 8 w

unfoldable pub write_uint16 : ℕ → BitWriter → BitWriter
write_uint16 v w = write v 16 w

unfoldable pub write_uint32 : ℕ → BitWriter → BitWriter
write_uint32 v w = write v 32 w

unfoldable pub write_uint64 : ℕ → BitWriter → BitWriter
write_uint64 v w = write v 64 w

unfoldable pub write_bool : Bool → BitWriter → BitWriter
write_bool v w = write (if v then 1 else 0) 1 w

-- `Flush`, `BitLength` and `Reset`.
unfoldable pub flush : BitWriter → BitWriter
flush w = record w { bits_free = 0 }

pub bit_length : BitWriter → ℕ
bit_length w = length w.buf * 8 - w.bits_free

pub reset : BitWriter → BitWriter
reset w = record { buf = []; bits_free = 0 }

-- `class BitReader`.
pub record BitReader : Type 0 where
  pub data_bytes : List ℕ
  pub byte_pos : ℕ
  pub current : ℕ
  pub bit_avail : ℕ
  pub error : Bool

pub new_reader : List ℕ → BitReader
new_reader bytes = record {
  data_bytes = bytes;
  byte_pos = 0;
  current = 0;
  bit_avail = 0;
  error = false;
}

-- The start of a round of `Read`: a byte is fetched where none is left, or the error is set.
pub next_byte : BitReader → BitReader
next_byte r =
    if r.bit_avail == 0
    then (if leb (length r.data_bytes) r.byte_pos then record r { error = true } else record r {
      current = get_or r.data_bytes r.byte_pos 0;
      byte_pos = r.byte_pos + 1;
      bit_avail = 8;
    })
    else r

-- The loop of `Read`, on rounds: one for each bit is enough.
pub read_loop : ℕ → ℕ → ℕ → BitReader → ℕ × BitReader
read_loop zero bits_left result r = (result, r)
read_loop (suc n) bits_left result r =
    let r' = next_byte r in
    let chunk = min bits_left r'.bit_avail in
    let shift = r'.bit_avail - chunk in
    let taken = bit_and (r'.current / 2 ^ shift) (2 ^ chunk - 1) in
    let rest =
      read_loop n (bits_left - chunk) (bit_or (result * 2 ^ chunk % 2 ^ 64) taken)
        (record r' { bit_avail = r'.bit_avail - chunk }) in
    if bits_left == 0 then (result, r) else if r'.error then (0, r') else rest

-- `Read`.
pub read : ℕ → BitReader → ℕ × BitReader
read bits r = if r.error then (0, r) else read_loop bits bits 0 r

-- `ReadUint8` to `ReadUint64`, and `ReadBool`.
unfoldable pub read_uint8 : BitReader → ℕ × BitReader
read_uint8 r = let (v, r') = read 8 r in (v % 2 ^ 8, r')

unfoldable pub read_uint16 : BitReader → ℕ × BitReader
read_uint16 r = let (v, r') = read 16 r in (v % 2 ^ 16, r')

unfoldable pub read_uint32 : BitReader → ℕ × BitReader
read_uint32 r = let (v, r') = read 32 r in (v % 2 ^ 32, r')

unfoldable pub read_uint64 : BitReader → ℕ × BitReader
read_uint64 r = read 64 r

unfoldable pub read_bool : BitReader → Bool × BitReader
read_bool r = let (v, r') = read 1 r in (not (v == 0), r')

-- `AlignToByte`, `IsEof`.
pub align_to_byte : BitReader → BitReader
align_to_byte r = if ltb 0 r.bit_avail then record r { bit_avail = 0 } else r

pub is_eof : BitReader → Bool
is_eof r = if leb (length r.data_bytes) r.byte_pos then r.bit_avail == 0 else false
