-- ===== src/Sim/Snapshot/Delta/ZigZag.antt =====
-- The ZigZag map of sector coordinates, and the cut of a coordinate to 32 bits.
use earth_rise_game.Prelude.{
  ℕ, ◌+◌, ◌-◌, ◌*◌, ◌/◌, ◌%◌, ◌^◌, ◌<◌, bit_and, bit_xor, ◌≡◌, refl, ap, ◌∙◌, true, false, arith,
  ltb, Bool-cases, inl, inr,
}
use earth_rise_game.Prelude.Int.{ℤ, pos, negsuc}
use earth_rise_game.Prelude.Mask.{bit_and_mask}
use earth_rise_game.Prelude.Xor.{bit_xor-lt, bit_xor-zero, bit_xor_ones}
use earth_rise_game.Serde.Buffer.{to_uint64}
use earth_rise_game.Serde.Parser.{to_uint32, to_int32}
use earth_rise_game.Serde.Parser.Sequence.{IsInt32}
use earth_rise_game.Sim.Snapshot.Delta.{zig_zag32, un_zig_zag32, narrow32}

pub zig_zag32-lt : (v : ℤ) → zig_zag32 v < 2 ^ 32
unfolding zig_zag32
zig_zag32-lt v = elim (Bool-cases (ltb (to_uint32 v) (2 ^ 31))) [
  | inl e ↦ rw e (bit_xor-lt 32 _ _ (omega arith) (omega arith))
  | inr e ↦ rw e (bit_xor-lt 32 _ _ (omega arith) (omega arith))
]

-- The ZigZag map and its inverse, on 32-bit integers.
pub un_zig_zag32-zig_zag32 : (v : ℤ) → IsInt32 v → un_zig_zag32 (zig_zag32 v) ≡ v
unfolding un_zig_zag32 zig_zag32 to_uint32 to_int32
un_zig_zag32-zig_zag32 (pos n) h =
    let zz : bit_xor (n % 2 ^ 32 * 2 % 2 ^ 32) 0 ≡ n * 2 =
      bit_xor-zero 32 _ (omega arith) ∙ omega arith in
    let low : ltb (n % 2 ^ 32) (2 ^ 31) ≡ true = ground arith in
    let last : bit_and (n * 2) 1 ≡ 0 = bit_and_mask 1 (n * 2) ∙ omega arith in
    let half : n * 2 / 2 ≡ n = omega arith in
    let back : bit_xor n 0 ≡ n = bit_xor-zero 32 n (omega arith) in
    let small : ltb n (2 ^ 31) ≡ true = ground arith in rw (low, zz, last, half, back, small) refl
un_zig_zag32-zig_zag32 (negsuc n) h =
    let u : ℕ = (2 ^ 32 - 1 - n % 2 ^ 32) % 2 ^ 32 in
    let zz : bit_xor (u * 2 % 2 ^ 32) (2 ^ 32 - 1) ≡ n * 2 + 1 =
      bit_xor_ones 32 _ (omega arith) ∙ omega arith in
    let high : ltb u (2 ^ 31) ≡ false = ground arith in
    let last : bit_and (n * 2 + 1) 1 ≡ 1 = bit_and_mask 1 (n * 2 + 1) ∙ omega arith in
    let half : (n * 2 + 1) / 2 ≡ n = omega arith in
    let back : bit_xor n (2 ^ 32 - 1) ≡ 2 ^ 32 - 1 - n = bit_xor_ones 32 n (omega arith) in
    let large : ltb (2 ^ 32 - 1 - n) (2 ^ 31) ≡ false = ground arith in
    rw (high, zz, last, half, back, large) (ap negsuc (omega arith))

pub narrow32_lem : (v : ℤ) → IsInt32 v → narrow32 v ≡ v
unfolding narrow32 to_uint64 to_int32
narrow32_lem (pos n) h = ground arith
narrow32_lem (negsuc n) h = ground arith
