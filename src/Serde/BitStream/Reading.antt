-- ===== src/Serde/BitStream/Reading.antt =====
-- `Read` as a whole: its value, what is left of the stream, and its error.
use native.Mathlib.Nat.{mod-eq_of_lt}
use earth_rise_game.Prelude.{
  ℕ, zero, suc, ◌+◌, ◌-◌, ◌*◌, ◌/◌, ◌%◌, ◌^◌, ◌≤◌, ◌<◌, min, bit_or, bit_and, ◌≡◌, refl, ap, ◌∙◌,
  false, arith,
}
use native.Mathlib.Nat.{pow-le-pow_right}
use earth_rise_game.Prelude.Bits.{bit_or_disjoint}
use earth_rise_game.Prelude.Chunks.{pow-add, below_chunk, div_join, mod-join_low}
use earth_rise_game.Serde.BitStream.{BitReader, next_byte, read_loop, read}
use earth_rise_game.Serde.BitStream.Readback.{
  Shows, next_byte-Shows, take_bits, Shows-lt, read_loop_stop, read_loop_go,
}

-- A result of `k` bits, with `c` more behind it, still fits 64 bits.
widen :
    (result k c y : ℕ)
    → k + c ≤ 64
    → result < 2 ^ k
    → y < 2 ^ c
    → (bit_or (result * 2 ^ c % 2 ^ 64) y ≡ result * 2 ^ c + y) × (result * 2 ^ c + y < 2 ^ (k + c))
widen result k c y room hr hy =
    let both : result * 2 ^ c + y < 2 ^ (k + c) =
      rw (pow-add k c) (below_chunk result (2 ^ k) (2 ^ c) y hr hy) in
    let most : 2 ^ (k + c) ≤ 2 ^ 64 = pow-le-pow_right (omega arith) {j = 64} room in
    let fits : result * 2 ^ c % 2 ^ 64 ≡ result * 2 ^ c =
      mod-eq_of_lt (omega (arith, both, most)) in
    (rw fits (bit_or_disjoint c result y hy), both)

-- What `left` bits of the stream are worth: `top`, with `m'` behind them.
abbrev Took : ℕ → ℕ → ℕ → ℕ → ℕ × BitReader → Type 0
Took m a left result (v, r') =
    (top : ℕ) × (m' : ℕ) × Shows r' m' (a - left)
    × (m ≡ top * 2 ^ (a - left) + m')
    × (v ≡ result * 2 ^ left + top)

-- With a round for each bit the loop reads all bits that it is asked for, if there are as many.
read_loop-Took :
    (fuel left result k : ℕ) (r : BitReader) (m a : ℕ)
    → left ≤ fuel
    → left ≤ a
    → k + left ≤ 64
    → result < 2 ^ k
    → Shows r m a
    → Took m a left result (read_loop fuel left result r)
read_loop-Took fuel zero result k r m a room enough wide small v =
    let all : a - 0 ≡ a = omega arith in
    rw (read_loop_stop fuel result r, all) (0, m, v, omega arith, omega arith)
read_loop-Took zero (suc left) result k r m a room enough wide small v = absurd (omega arith)
read_loop-Took (suc fuel) (suc left) result k r m a room enough wide small v =
    let r' : BitReader = next_byte r in
    let (v', some) = next_byte-Shows r m a v (omega arith) in
    let c : ℕ = min (suc left) r'.bit_avail in
    let s : ℕ = r'.bit_avail - c in
    let y : ℕ = bit_and (r'.current / 2 ^ s) (2 ^ c - 1) in
    let (m1, v1, fits, y_small, parts) = take_bits r' m a c s v' (omega arith) in
    let (res, res_small) = widen result k c y (omega arith) small y_small in
    let rest : Took m1 (a - c) (suc left - c) (result * 2 ^ c + y)
        (read_loop fuel (suc left - c) (result * 2 ^ c + y) (record r' { bit_avail = s })) =
      read_loop-Took fuel (suc left - c) (result * 2 ^ c + y) (k + c) (record r' { bit_avail = s })
        m1 (a - c) (omega arith) (omega arith) (omega arith) res_small v1 in
    rw (read_loop_go fuel (suc left) result r (omega arith) v'.good, res)
      (together c y m1 (omega arith) (omega arith) parts _ rest)
  where
    together :
        (c y m1 : ℕ)
        → c ≤ suc left
        → c ≤ a
        → m ≡ y * 2 ^ (a - c) + m1
        → (out : ℕ × BitReader) → Took m1 (a - c) (suc left - c) (result * 2 ^ c + y) out
        → Took m a (suc left) result out
    together c y m1 h k parts (w, r') (top, m', shown, more, val) =
        let same : a - c - (suc left - c) ≡ a - suc left = omega arith in
        let wide : a - c ≡ suc left - c + (a - suc left) = omega arith in
        let more' : m1 ≡ top * 2 ^ (a - suc left) + m' = rw same at more in
        let parts' : m ≡ y * (2 ^ (suc left - c) * 2 ^ (a - suc left)) + m1 =
          rw (wide, pow-add (suc left - c) (a - suc left)) at parts in
        let full : suc left ≡ c + (suc left - c) = omega arith in
        let power : 2 ^ suc left ≡ 2 ^ c * 2 ^ (suc left - c) =
          ap (λ (t : ℕ). 2 ^ t) full ∙ pow-add c (suc left - c) in
        (
          y * 2 ^ (suc left - c) + top,
          m',
          rw same at shown,
          grind (arith, parts', more'),
          rw power (grind (arith, val)),
        )

read_good : (bits : ℕ) (r : BitReader) → r.error ≡ false → read bits r ≡ read_loop bits bits 0 r
unfolding read
read_good bits r e = rw e refl

-- `Read` of at most 64 bits, of a stream that has as many left, is the number that those bits are,
-- and leaves the bits behind them, with no error.
pub read-Shows :
    (bits : ℕ) (r : BitReader) (m a : ℕ)
    → bits ≤ 64
    → bits ≤ a
    → Shows r m a
    → let (v, r') = read bits r in
      (v ≡ m / 2 ^ (a - bits)) × Shows r' (m % 2 ^ (a - bits)) (a - bits)
read-Shows bits r m a few enough v = rw (read_good bits r v.good) (
    exact (read_loop bits bits 0 r)
      (read_loop-Took bits bits 0 0 r m a (omega arith) enough (omega arith) (omega arith) v))
  where
    exact :
        (out : ℕ × BitReader)
        → Took m a bits 0 out
        → (out.0 ≡ m / 2 ^ (a - bits)) × Shows out.1 (m % 2 ^ (a - bits)) (a - bits)
    exact (w, r') (top, m', shown, parts, val) =
        let small : m' < 2 ^ (a - bits) = Shows-lt r' m' (a - bits) shown in
        let high : m / 2 ^ (a - bits) ≡ top = rw parts (div_join top (2 ^ (a - bits)) m' small) in
        let low : m % 2 ^ (a - bits) ≡ m' = rw parts (mod-join_low top (2 ^ (a - bits)) m' small) in
        (omega (arith, high, val), rw low shown)
