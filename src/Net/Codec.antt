-- ===== src/Net/Codec.antt =====
-- NeuronCore/PacketCodec.h: little-endian fields, the clear packet header and the framing of the
-- messages inside a payload. A read outside the span, which C++ leaves undefined, is a fault here.
pub mod Fields
pub mod Messages
pub mod Safety
mod Examples
use earth_rise_game.Prelude.{
  ℕ, zero, suc, ◌+◌, ◌*◌, ◌/◌, ◌%◌, ◌^◌, bit_and, bit_or, Bool, true, false, List, [], ◌∷◌, ◌++◌,
  Option, none, some, ltb, if◌then◌else◌, get_elem?, take, drop, length,
}

-- How a read ends: with a value, outside the span, or (for a loop) with no rounds left.
pub data Outcome {ℓ} (A : Type ℓ) : Type ℓ where
  value : A → Outcome A
  out_of_bounds : Outcome A
  no_rounds : Outcome A

infixl 5 ◌>>=◌
abbrev pub ◌>>=◌ {ℓ κ} : {A : Type ℓ} {B : Type κ} → Outcome A → (A → Outcome B) → Outcome B
value a >>= f = f a
out_of_bounds >>= f = out_of_bounds
no_rounds >>= f = no_rounds

-- `b[i]`.
abbrev pub byte_at : List ℕ → ℕ → Outcome ℕ
byte_at b i = elim (get_elem? b i) [ none ↦ out_of_bounds | some x ↦ value x ]

-- `(v >> (8 * i)) & 0xFF`.
abbrev pub byte_of : ℕ → ℕ → ℕ
byte_of v i = bit_and (v / 2 ^ (8 * i)) 0xFF

-- `for (; i < n; ++i) b.push_back((v >> (8 * i)) & 0xFF)`, with the rounds that are left.
unfoldable pub put_bytes : ℕ → ℕ → List ℕ → ℕ → List ℕ
put_bytes zero i b v = b
put_bytes (suc n) i b v = put_bytes n (i + 1) (b ++ (byte_of v i ∷ [])) v

-- `PutU16`, `PutU32`, `PutU64`.
unfoldable pub put_u16 : List ℕ → ℕ → List ℕ
put_u16 b v = (b ++ (bit_and v 0xFF ∷ [])) ++ (bit_and (v / 2 ^ 8) 0xFF ∷ [])

unfoldable pub put_u32 : List ℕ → ℕ → List ℕ
put_u32 b v = put_bytes 4 0 b v

unfoldable pub put_u64 : List ℕ → ℕ → List ℕ
put_u64 b v = put_bytes 8 0 b v

-- `for (; i < n; ++i) v |= b[off + i] << (8 * i)`, in a word of `width` bits.
unfoldable pub get_bytes : ℕ → ℕ → ℕ → List ℕ → ℕ → ℕ → Outcome ℕ
get_bytes width zero i b off v = value v
get_bytes width (suc n) i b off v = do
  x ← byte_at b (off + i)
  get_bytes width n (i + 1) b off (bit_or v (x * 2 ^ (8 * i) % 2 ^ width))

-- `GetU16`, `GetU32`, `GetU64`: the value, and the advanced offset.
unfoldable pub get_u16 : List ℕ → ℕ → Outcome (ℕ × ℕ)
get_u16 b off = do
  lo ← byte_at b off
  hi ← byte_at b (off + 1)
  value (bit_or lo (hi * 2 ^ 8 % 2 ^ 16), off + 2)

unfoldable pub get_u32 : List ℕ → ℕ → Outcome (ℕ × ℕ)
get_u32 b off = do v ← get_bytes 32 4 0 b off 0; value (v, off + 4)

unfoldable pub get_u64 : List ℕ → ℕ → Outcome (ℕ × ℕ)
get_u64 b off = do v ← get_bytes 64 8 0 b off 0; value (v, off + 8)

-- `struct PacketHeader`.
pub record PacketHeader : Type 0 where
  pub protocol_id : ℕ
  pub connection_token : ℕ
  pub packet_number : ℕ

abbrev pub wire_size : ℕ
wire_size = 20

-- `WritePacketHeader`.
pub write_packet_header : List ℕ → PacketHeader → List ℕ
write_packet_header out h =
    put_u64 (put_u64 (put_u32 out h.protocol_id) h.connection_token) h.packet_number

-- `ReadPacketHeader`: `none` is `false`, with the header left as it was; else the header and `off`.
pub read_packet_header : List ℕ → Outcome (Option (PacketHeader × ℕ))
read_packet_header input = if ltb (length input) wire_size then value none else do
  (id, off) ← get_u32 input 0
  (token, off') ← get_u64 input off
  (number, off'') ← get_u64 input off'
  value
      (some (record { protocol_id = id; connection_token = token; packet_number = number }, off''))

-- `struct DecodedMessage`. The two enums are what their `uint8_t` holds, named value or not.
pub record Message : Type 0 where
  pub channel : ℕ
  pub kind : ℕ
  pub body : List ℕ

-- `WriteMessage`. The length field is the size of the body cut to 16 bits.
pub write_message : List ℕ → Message → List ℕ
write_message out m =
    put_u16 ((out ++ (m.channel ∷ [])) ++ (m.kind ∷ [])) (length m.body % 2 ^ 16) ++ m.body

-- `payload.subspan(off, len)`: defined only where the bytes stand in the span.
unfoldable pub subspan : List ℕ → ℕ → ℕ → Outcome (List ℕ)
subspan payload off len =
    if ltb (length payload) (off + len) then out_of_bounds else value (take len (drop off payload))

-- The body of the loop of `ReadMessages` from `off` on: `none` is `return false`, else the message
-- and the offset behind it.
pub read_message : List ℕ → ℕ → Outcome (Option (Message × ℕ))
read_message payload off = if ltb (length payload) (off + 4) then value none else do
  channel ← byte_at payload off
  kind ← byte_at payload (off + 1)
  (len, off') ← get_u16 payload (off + 2)
  if ltb (length payload) (off' + len) then value none else do
    body ← subspan payload off' len
    value (some (record { channel = channel; kind = kind; body = body }, off' + len))

-- `ReadMessages`: its result, and `out` with what was decoded before it returned.
pub read_loop : ℕ → List ℕ → ℕ → List Message → Outcome (Bool × List Message)
read_loop zero payload off out = no_rounds
read_loop (suc rounds) payload off out =
    if ltb off (length payload)
    then (read_message payload off >>= λ r. elim r [
      | none ↦ value (false, out)
      | some (m, off') ↦ read_loop rounds payload off' (out ++ (m ∷ []))
    ])
    else value (true, out)

-- Each round moves `off` on by at least four bytes, so one round a byte and a last test are enough.
pub read_messages : List ℕ → List Message → Outcome (Bool × List Message)
read_messages payload out = read_loop (length payload + 1) payload 0 out
