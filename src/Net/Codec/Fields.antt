-- ===== src/Net/Codec/Fields.antt =====
-- The integer fields of PacketCodec.h, and the packet header that they make up.
use native.Mathlib.Nat.{mod-add-div', div-div-eq-div-mul, mod-lt, mod-eq_of_lt, pow-le-pow_right}
use native.Mathlib.Numerals.{towards_suc}
use earth_rise_game.Prelude.{
  ℕ, zero, suc, ◌+◌, ◌*◌, ◌/◌, ◌%◌, ◌^◌, ◌≤◌, ◌<◌, ◌≡◌, refl, ap, ◌∙◌, sym, bit_or, List, [], ◌∷◌,
  ◌++◌, some, none, arith, get_elem?, length, length-append, append_assoc, get_elem?-append_at,
  append-nil,
}
use earth_rise_game.Prelude.Bits.{bit_or_comm, bit_or_disjoint, pow_pos}
use earth_rise_game.Prelude.Mask.{bit_and_mask}
use earth_rise_game.Net.Codec.{
  ◌>>=◌, value, byte_at, byte_of, put_bytes, put_u16, put_u32, put_u64, get_bytes, get_u16, get_u32,
  get_u64, PacketHeader, wire_size, write_packet_header, read_packet_header,
}

-- The bytes `i` to `i + n - 1` of `v`.
pub bytes_from : ℕ → ℕ → ℕ → List ℕ
bytes_from zero i v = []
bytes_from (suc n) i v = byte_of v i ∷ bytes_from n (i + 1) v

pub put_bytes_lem : (n i : ℕ) (b : List ℕ) (v : ℕ) → put_bytes n i b v ≡ b ++ bytes_from n i v
unfolding put_bytes bytes_from
put_bytes_lem zero i b v = sym (append-nil b)
put_bytes_lem (suc n) i b v =
    put_bytes_lem n (i + 1) (b ++ (byte_of v i ∷ [])) v ∙ append_assoc b (byte_of v i ∷ []) _

pub length-bytes_from : (n i v : ℕ) → length (bytes_from n i v) ≡ n
unfolding bytes_from
length-bytes_from zero i v = refl
length-bytes_from (suc n) i v = ap suc (length-bytes_from n (i + 1) v)

pow_next : (i : ℕ) → 2 ^ (8 * (i + 1)) ≡ 2 ^ (8 * i) * 256
pow_next i = let shift : 8 * (i + 1) ≡ 8 * i + 8 = omega arith in rw shift (eight (8 * i))
  where
    eight : (s : ℕ) → 2 ^ (s + 8) ≡ 2 ^ s * 256
    eight s = simp towards_suc (omega arith)

-- One more byte above the `i` lower ones.
mod_byte : (v m : ℕ) → v % m + v / m % 256 * m ≡ v % (m * 256)
mod_byte v m =
    let high : v / (m * 256) ≡ v / m / 256 = sym (div-div-eq-div-mul v m 256) in
    omega (
      arith,
      mod-add-div' v (m * 256),
      mod-add-div' v m,
      ap (λ (t : ℕ). t * m) (mod-add-div' (v / m) 256),
      ap (λ (t : ℕ). t * (m * 256)) high,
    )

-- What one round of a reader makes of the byte that a writer put there.
join_byte :
    (width i v : ℕ)
    → 8 * (i + 1) ≤ width
    → bit_or (v % 2 ^ (8 * i)) (byte_of v i * 2 ^ (8 * i) % 2 ^ width) ≡ v % 2 ^ (8 * (i + 1))
join_byte width i v fits =
    let m : ℕ = 2 ^ (8 * i) in
    let x : ℕ = v / m % 256 in
    let byte : byte_of v i ≡ x = bit_and_mask 8 (v / m) in
    let room : 2 ^ (8 * (i + 1)) ≤ 2 ^ width = pow-le-pow_right (omega arith) {j = width} fits in
    let low : v % m < m = mod-lt v (pow_pos (8 * i)) in
    let below : x * m < 2 ^ width = grind (arith, pow_next i) in
    let flat : byte_of v i * m % 2 ^ width ≡ x * m = rw byte (mod-eq_of_lt below) in
    rw (flat, bit_or_comm (v % m) (x * m), bit_or_disjoint (8 * i) x (v % m) low)
      (omega (arith, mod_byte v m, ap (λ (t : ℕ). v % t) (pow_next i)))

get_bytes_step :
    (width n i : ℕ) (b : List ℕ) (off v x : ℕ)
    → get_elem? b (off + i) ≡ some x
    → get_bytes width (suc n) i b off v
      ≡ get_bytes width n (i + 1) b off (bit_or v (x * 2 ^ (8 * i) % 2 ^ width))
unfolding get_bytes
get_bytes_step width n i b off v x e = rw (e, byte_at, ◌>>=◌) refl

pub get_bytes_lem :
    (width n i : ℕ) (front : List ℕ) (v : ℕ) (rest : List ℕ) (off : ℕ)
    → 8 * (i + n) ≤ width
    → off + i ≡ length front
    → get_bytes width n i (front ++ (bytes_from n i v ++ rest)) off (v % 2 ^ (8 * i))
      ≡ value (v % 2 ^ (8 * (i + n)))
unfolding get_bytes bytes_from
get_bytes_lem width zero i front v rest off fits at =
    ap (λ t. value (v % 2 ^ (8 * t))) (omega arith)
get_bytes_lem width (suc n) i front v rest off fits at =
    let x : ℕ = byte_of v i in
    let b : List ℕ = front ++ (bytes_from (suc n) i v ++ rest) in
    let split : b ≡ (front ++ (x ∷ [])) ++ (bytes_from n (i + 1) v ++ rest) =
      sym (append_assoc front (x ∷ []) (bytes_from n (i + 1) v ++ rest)) in
    let next : get_bytes width n (i + 1) b off (v % 2 ^ (8 * (i + 1)))
        ≡ value (v % 2 ^ (8 * (i + 1 + n))) =
      rw split (
        get_bytes_lem width n (i + 1) (front ++ (x ∷ [])) v rest off (omega arith)
          (omega (arith, length-append front (x ∷ [])))) in
    let read : get_elem? b (off + i) ≡ some x =
      get_elem?-append_at front x (bytes_from n (i + 1) v ++ rest) (off + i) at in
    get_bytes_step width n i b off (v % 2 ^ (8 * i)) x read
    ∙ ap (get_bytes width n (i + 1) b off) (join_byte width i v (omega arith))
    ∙ next
    ∙ ap (λ t. value (v % 2 ^ (8 * t))) (omega arith)

-- The two bytes of a `uint16_t`.
abbrev pub two_bytes : ℕ → List ℕ
two_bytes v = v % 256 ∷ v / 256 % 256 ∷ []

pub put_u16_lem : (b : List ℕ) (v : ℕ) → put_u16 b v ≡ b ++ two_bytes v
unfolding put_u16
put_u16_lem b v =
    rw (bit_and_mask 8 v, bit_and_mask 8 (v / 2 ^ 8)) (append_assoc b (v % 256 ∷ []) _)

pub get_u16_step :
    (b : List ℕ) (off lo hi : ℕ)
    → get_elem? b off ≡ some lo
    → get_elem? b (off + 1) ≡ some hi
    → get_u16 b off ≡ value (bit_or lo (hi * 2 ^ 8 % 2 ^ 16), off + 2)
unfolding get_u16
get_u16_step b off lo hi first second = ground arith

pub get_u16_lem :
    (front : List ℕ) (lo hi : ℕ) (rest : List ℕ) (off : ℕ)
    → off ≡ length front
    → lo < 256
    → hi < 256
    → get_u16 (front ++ (lo ∷ hi ∷ rest)) off ≡ value (hi * 256 + lo, off + 2)
get_u16_lem front lo hi rest off at hlo hhi =
    let b : List ℕ = front ++ (lo ∷ hi ∷ rest) in
    let first : get_elem? b off ≡ some lo = get_elem?-append_at front lo (hi ∷ rest) off at in
    let second : get_elem? b (off + 1) ≡ some hi =
      rw (sym (append_assoc front (lo ∷ []) (hi ∷ rest))) (
        get_elem?-append_at (front ++ (lo ∷ [])) hi rest (off + 1)
          (omega (arith, length-append front (lo ∷ [])))) in
    let small : hi * 2 ^ 8 % 2 ^ 16 ≡ hi * 2 ^ 8 = omega arith in
    let joined : bit_or lo (hi * 2 ^ 8 % 2 ^ 16) ≡ hi * 256 + lo =
      rw (small, bit_or_comm lo (hi * 2 ^ 8)) (bit_or_disjoint 8 hi lo hlo) in
    get_u16_step b off lo hi first second ∙ ap (λ t. value (t, off + 2)) joined

pub get_u32_lem :
    (front : List ℕ) (v : ℕ) (rest : List ℕ) (off : ℕ)
    → off ≡ length front
    → v < 2 ^ 32
    → get_u32 (front ++ (bytes_from 4 0 v ++ rest)) off ≡ value (v, off + 4)
unfolding get_u32
get_u32_lem front v rest off at fits =
    let none_yet : v % 2 ^ (8 * 0) ≡ 0 = omega arith in
    let read : get_bytes 32 4 0 (front ++ (bytes_from 4 0 v ++ rest)) off 0
        ≡ value (v % 2 ^ (8 * (0 + 4))) =
      rw none_yet at (get_bytes_lem 32 4 0 front v rest off (omega arith) (omega arith)) in
    rw read (ap (λ t. value (t, off + 4)) (omega arith))

pub get_u64_lem :
    (front : List ℕ) (v : ℕ) (rest : List ℕ) (off : ℕ)
    → off ≡ length front
    → v < 2 ^ 64
    → get_u64 (front ++ (bytes_from 8 0 v ++ rest)) off ≡ value (v, off + 8)
unfolding get_u64
get_u64_lem front v rest off at fits =
    let none_yet : v % 2 ^ (8 * 0) ≡ 0 = omega arith in
    let read : get_bytes 64 8 0 (front ++ (bytes_from 8 0 v ++ rest)) off 0
        ≡ value (v % 2 ^ (8 * (0 + 8))) =
      rw none_yet at (get_bytes_lem 64 8 0 front v rest off (omega arith) (omega arith)) in
    rw read (ap (λ t. value (t, off + 8)) (omega arith))

-- The fields of a header hold a `uint32_t` and two `uint64_t`.
pub record IsHeader (h : PacketHeader) : Type 0 where
  pub id : h.protocol_id < 2 ^ 32
  pub token : h.connection_token < 2 ^ 64
  pub number : h.packet_number < 2 ^ 64

unfoldable pub header_bytes : PacketHeader → List ℕ
header_bytes h =
    bytes_from 4 0 h.protocol_id
    ++ (bytes_from 8 0 h.connection_token ++ bytes_from 8 0 h.packet_number)

pub write_packet_header_lem :
    (out : List ℕ) (h : PacketHeader) → write_packet_header out h ≡ out ++ header_bytes h
unfolding write_packet_header header_bytes put_u32 put_u64
write_packet_header_lem out h = simp (put_bytes_lem, append_assoc)

length-header_bytes : (h : PacketHeader) → length (header_bytes h) ≡ 20
unfolding header_bytes
length-header_bytes h = simp (length-append, length-bytes_from)

read_header_step :
    (b : List ℕ) (h : PacketHeader)
    → 20 ≤ length b
    → get_u32 b 0 ≡ value (h.protocol_id, 4)
    → get_u64 b 4 ≡ value (h.connection_token, 12)
    → get_u64 b 12 ≡ value (h.packet_number, 20)
    → read_packet_header b ≡ value (some (h, 20))
unfolding read_packet_header
read_header_step b h long first second third = ground arith

-- A header that was written is read back, with the offset behind it, whatever follows.
pub read-write_packet_header :
    (h : PacketHeader) (rest : List ℕ)
    → IsHeader h
    → read_packet_header (write_packet_header [] h ++ rest) ≡ value (some (h, wire_size))
unfolding header_bytes
read-write_packet_header h rest v =
    let id : List ℕ = bytes_from 4 0 h.protocol_id in
    let token : List ℕ = bytes_from 8 0 h.connection_token in
    let number : List ℕ = bytes_from 8 0 h.packet_number in
    let b : List ℕ = id ++ (token ++ (number ++ rest)) in
    let flat : write_packet_header [] h ++ rest ≡ b =
      simp (write_packet_header_lem, append_assoc) in
    let long : 20 ≤ length b =
      rw (length-append, length-append, length-append)
        (omega (
          arith,
          length-bytes_from 4 0 h.protocol_id,
          length-bytes_from 8 0 h.connection_token,
          length-bytes_from 8 0 h.packet_number,
        )) in
    let second : get_u64 b 4 ≡ value (h.connection_token, 12) =
      get_u64_lem id h.connection_token (number ++ rest) 4
        (sym (length-bytes_from 4 0 h.protocol_id)) v.token in
    let third : get_u64 b 12 ≡ value (h.packet_number, 20) =
      rw (sym (append_assoc id token (number ++ rest))) (
        get_u64_lem (id ++ token) h.packet_number rest 12
          (omega (
            arith,
            length-append id token,
            length-bytes_from 4 0 h.protocol_id,
            length-bytes_from 8 0 h.connection_token,
          ))
          v.number) in
    rw flat (read_header_step b h long (get_u32_lem [] h.protocol_id _ 0 refl v.id) second third)

-- Fewer than 20 bytes are no header.
pub read_packet_header_short :
    (b : List ℕ) → length b < wire_size → read_packet_header b ≡ value none
unfolding read_packet_header
read_packet_header_short b h = ground arith
