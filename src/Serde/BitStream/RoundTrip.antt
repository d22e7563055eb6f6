-- ===== src/Serde/BitStream/RoundTrip.antt =====
-- Fields written and read again.
use native.Mathlib.Nat.{mod-eq_of_lt, pow-le-pow_right}
use earth_rise_game.Prelude.Bits.{pow_pos}
use earth_rise_game.Prelude.{
  ℕ, length, ◌+◌, ◌-◌, ◌*◌, ◌%◌, ◌^◌, ◌≤◌, ◌<◌, ◌≡◌, refl, ◌∙◌, false, List, [], ◌∷◌, ◌++◌, map,
  arith, All,
}
use earth_rise_game.Prelude.Chunks.{pow-add, below_chunk, div_join, mod-join_low}
use earth_rise_game.Serde.BitStream.{
  BitWriter, BitReader, new_writer, new_reader, write, read, bit_length,
}
use earth_rise_game.Serde.BitStream.Written.{number_from, Holds}
use earth_rise_game.Serde.BitStream.Writing.{same_stream, new_writer-Holds, write-Holds}
use earth_rise_game.Serde.BitStream.Bytes.{IsBytes, write-IsBytes}
use earth_rise_game.Serde.BitStream.Readback.{Shows}
use earth_rise_game.Serde.BitStream.Reading.{read-Shows}

-- A value and the number of its bits.
abbrev pub Field : Type 0
Field = ℕ × ℕ

-- `Write` takes 1 to 64 bits.
abbrev pub Fits : Field → Type 0
Fits (value, bits) = (value < 2 ^ bits) × (0 < bits) × (bits ≤ 64)

-- `Write` of each field in turn, and `Read` of each width.
unfoldable pub write_all : List Field → BitWriter → BitWriter
write_all [] w = w
write_all ((value, bits) ∷ fs) w = write_all fs (write value bits w)

unfoldable pub read_all : List ℕ → BitReader → List ℕ × BitReader
read_all [] r = ([], r)
read_all (bits ∷ widths) r =
    let (v, r') = read bits r in let (vs, r'') = read_all widths r' in (v ∷ vs, r'')

pub write_all-append :
    (fs gs : List Field) (w : BitWriter) → write_all (fs ++ gs) w ≡ write_all gs (write_all fs w)
unfolding write_all
write_all-append [] gs w = refl
write_all-append ((value, bits) ∷ fs) gs w = write_all-append fs gs (write value bits w)

-- The bits of the fields, as one number, and how many they are.
unfoldable pub fields_bits : List Field → ℕ
fields_bits [] = 0
fields_bits ((value, bits) ∷ fs) = bits + fields_bits fs

unfoldable pub fields_number : List Field → ℕ
fields_number [] = 0
fields_number ((value, bits) ∷ fs) = value * 2 ^ fields_bits fs + fields_number fs

pub fields_number-lt : (fs : List Field) → All Fits fs → fields_number fs < 2 ^ fields_bits fs
unfolding fields_bits fields_number
fields_number-lt [] v = omega arith
fields_number-lt ((value, bits) ∷ fs) v = rw (pow-add bits (fields_bits fs)) (
    below_chunk value (2 ^ bits) (2 ^ fields_bits fs) (fields_number fs) v.0.0
      (fields_number-lt fs v.1))

pub write_all-Holds :
    (fs : List Field) (w : BitWriter) (n len : ℕ)
    → All Fits fs
    → Holds w n len
    → IsBytes w.buf
    → Holds (write_all fs w) (n * 2 ^ fields_bits fs + fields_number fs) (len + fields_bits fs)
      × IsBytes (write_all fs w).buf
unfolding write_all fields_bits fields_number
write_all-Holds [] w n len v h b = (same_stream w n _ len _ (omega arith) (omega arith) h, b)
write_all-Holds ((value, bits) ∷ fs) w n len v h b =
    let small : value < 2 ^ 64 = fits64 v.0 in
    let kept : value % 2 ^ bits ≡ value = mod-eq_of_lt v.0.0 in
    let rest =
      write_all-Holds fs (write value bits w) (n * 2 ^ bits + value % 2 ^ bits) (len + bits) v.1
        (write-Holds value bits w n len small v.0.2 h) (write-IsBytes value bits w b) in
    (
      same_stream _ _ _ _ _ (rw (kept, pow-add bits (fields_bits fs)) (grind arith)) (omega arith)
          rest.0,
      rest.1,
    )
  where
    fits64 : Fits (value, bits) → value < 2 ^ 64
    fits64 v =
        let most : 2 ^ bits ≤ 2 ^ 64 = pow-le-pow_right (omega arith) {j = 64} v.2 in
        omega (arith, v.0, most)

-- A reader of the fields, with `t` more bits behind them.
read_all-Shows :
    (fs : List Field) (r : BitReader) (t z : ℕ)
    → All Fits fs
    → z < 2 ^ t
    → Shows r (fields_number fs * 2 ^ t + z) (fields_bits fs + t)
    → let (vs, r') = read_all (map (λ f. f.1) fs) r in (vs ≡ map (λ f. f.0) fs) × (r'.error ≡ false)
unfolding read_all fields_bits fields_number
read_all-Shows [] r t z v small s = (refl, s.good)
read_all-Shows ((value, bits) ∷ fs) r t z v small s =
    let l : ℕ = fields_bits fs in
    let left : bits + l + t - bits ≡ l + t = omega arith in
    let below : fields_number fs * 2 ^ t + z < 2 ^ (l + t) =
      rw (pow-add l t)
        (below_chunk (fields_number fs) (2 ^ l) (2 ^ t) z (fields_number-lt fs v.1) small) in
    let parts : (value * 2 ^ l + fields_number fs) * 2 ^ t + z
        ≡ value * 2 ^ (l + t) + (fields_number fs * 2 ^ t + z) =
      rw (pow-add l t) (grind arith) in
    let (first, after) =
      rw (left, parts) at (read-Shows bits r _ (bits + l + t) v.0.2 (omega arith) s) in
    let next : Shows (read bits r).1 (fields_number fs * 2 ^ t + z) (l + t) =
      rw (mod-join_low value (2 ^ (l + t)) (fields_number fs * 2 ^ t + z) below) at after in
    let (rest, good) = read_all-Shows fs (read bits r).1 t z v.1 small next in
    let value' : (read bits r).0 ≡ value =
      first ∙ div_join value (2 ^ (l + t)) (fields_number fs * 2 ^ t + z) below in
    (rw (value', rest) refl, good)

pub new_reader-Shows :
    (w : BitWriter) (n len : ℕ)
    → Holds w n len
    → IsBytes w.buf
    → Shows (new_reader w.buf) (n * 2 ^ w.bits_free + 0) (len + w.bits_free)
unfolding new_reader
new_reader-Shows w n len h b = record {
  value = h.value ∙ omega arith;
  size = omega (arith, h.size);
  bytes = b;
  good = refl;
}

-- A new reader shows all bits of its bytes.
pub new_reader-Shows_all :
    (bytes : List ℕ)
    → IsBytes bytes
    → Shows (new_reader bytes) (number_from 0 bytes) (length bytes * 8)
unfolding new_reader
new_reader-Shows_all bytes b = record { value = refl; size = omega arith; bytes = b; good = refl }

-- Fields of 1 to 64 bits that are written to a new writer are read back from its bytes, each with
-- its width, in order and with no error; the writer's bit length is the sum of the widths.
pub read-write_all :
    (fs : List Field)
    → All Fits fs
    → let w = write_all fs new_writer in
      let (vs, r) = read_all (map (λ f. f.1) fs) (new_reader w.buf) in
      (vs ≡ map (λ f. f.0) fs) × (r.error ≡ false) × (bit_length w ≡ fields_bits fs)
unfolding bit_length
read-write_all fs v =
    let w : BitWriter = write_all fs new_writer in
    let (h, b) = write_all-Holds fs new_writer 0 0 v new_writer-Holds new_writer-IsBytes in
    let h' : Holds w (fields_number fs) (fields_bits fs) =
      same_stream w _ _ _ _ (omega arith) (omega arith) h in
    let (vs, good) =
      read_all-Shows fs (new_reader w.buf) w.bits_free 0 v (pow_pos w.bits_free)
        (new_reader-Shows w (fields_number fs) (fields_bits fs) h' b) in
    (vs, good, omega (arith, h'.size))
  where
    new_writer-IsBytes : IsBytes new_writer.buf
    new_writer-IsBytes = unfold new_writer in tt
