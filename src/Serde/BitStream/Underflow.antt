-- ===== src/Serde/BitStream/Underflow.antt =====
-- What the reader does past the end of its bytes.
use earth_rise_game.Prelude.{
  ℕ, zero, suc, ◌-◌, ◌≤◌, ◌<◌, min, ◌≡◌, refl, ap, true, false, arith, ◌==◌, length-drop,
}
use earth_rise_game.Serde.BitStream.{BitReader, next_byte, read_loop, read}
use earth_rise_game.Serde.BitStream.Readback.{
  Shows, next_byte-Shows, next_byte_none, take_bits, read_loop_go,
}

-- The answer of a failed read.
abbrev pub Failed : ℕ × BitReader → Type 0
Failed (v, r) = (v ≡ 0) × (r.error ≡ true)

read_loop_fail :
    (fuel left result : ℕ) (r : BitReader)
    → 0 < left
    → (next_byte r).error ≡ true
    → read_loop (suc fuel) left result r ≡ (0, next_byte r)
unfolding read_loop
read_loop_fail fuel left result r h bad =
    let no : (left == 0) ≡ false = ground arith in rw (no, bad) refl

read_loop-Failed :
    (fuel left result : ℕ) (r : BitReader) (m a : ℕ)
    → left ≤ fuel
    → a < left
    → Shows r m a
    → Failed (read_loop fuel left result r)
read_loop-Failed zero left result r m a room short v = absurd (omega arith)
read_loop-Failed (suc fuel) left result r m zero room short v =
    let empty : next_byte r ≡ record r { error = true } =
      next_byte_none r (omega (arith, v.size))
        (omega (arith, v.size, length-drop r.byte_pos r.data_bytes)) in
    let bad : (next_byte r).error ≡ true = ap (λ (x : BitReader). x.error) empty in
    rw (read_loop_fail fuel left result r (omega arith) bad) (refl, bad)
read_loop-Failed (suc fuel) left result r m (suc a) room short v =
    let r' : BitReader = next_byte r in
    let (v', some) = next_byte-Shows r m (suc a) v (omega arith) in
    let c : ℕ = min left r'.bit_avail in
    let s : ℕ = r'.bit_avail - c in
    let (m1, v1, fits, y_small, parts) = take_bits r' m (suc a) c s v' (omega arith) in
    rw (read_loop_go fuel left result r (omega arith) v'.good) (
      read_loop-Failed fuel (left - c) _ (record r' { bit_avail = s }) m1 (suc a - c) (omega arith)
        (omega arith) v1)

read_bad : (bits : ℕ) (r : BitReader) → r.error ≡ true → read bits r ≡ (0, r)
unfolding read
read_bad bits r e = rw e refl

read_fresh : (bits : ℕ) (r : BitReader) → r.error ≡ false → read bits r ≡ read_loop bits bits 0 r
unfolding read
read_fresh bits r e = rw e refl

-- A read of more bits than are left gives 0 and sets the error, and every read after it gives 0 and
-- changes nothing.
pub read-Failed :
    (bits : ℕ) (r : BitReader) (m a : ℕ)
    → a < bits
    → Shows r m a
    → Failed (read bits r) × ((more : ℕ) → read more (read bits r).1 ≡ (0, (read bits r).1))
read-Failed bits r m a short v =
    let failed : Failed (read bits r) =
      rw (read_fresh bits r v.good) (read_loop-Failed bits bits 0 r m a (omega arith) short v) in
    (failed, λ more. read_bad more (read bits r).1 failed.1)
