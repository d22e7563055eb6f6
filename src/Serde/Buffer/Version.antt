-- ===== src/Serde/Buffer/Version.antt =====
-- The version header: what a buffer writes it reads, and nothing else is good.
use native.Mathlib.Nat.{mod-eq_of_lt, div-lt_iff_lt-mul}
use earth_rise_game.Prelude.{
  ℕ, ◌+◌, ◌-◌, ◌*◌, ◌/◌, ◌%◌, ◌^◌, ◌≤◌, ◌<◌, ◌≡◌, refl, ap, ◌∙◌, Bool, true, false, not, ◌&&◌, List,
  [], ◌∷◌, map, arith, leb, ◌==◌, length, get_or, drop, All, Bool-cases, inl, inr,
}
use earth_rise_game.Prelude.Int.{ℤ, pos, negsuc}
use earth_rise_game.Prelude.Bits.{pow_pos}
use earth_rise_game.Prelude.Chunks.{pow-add}
use earth_rise_game.Serde.BitStream.{
  BitReader, new_writer, new_reader, read, read_uint32, write_uint32,
}
use earth_rise_game.Serde.BitStream.Bytes.{IsBytes}
use earth_rise_game.Serde.BitStream.Written.{number_from}
use earth_rise_game.Serde.BitStream.Readback.{number_from-lt}
use earth_rise_game.Serde.BitStream.Reading.{read-Shows}
use earth_rise_game.Serde.BitStream.Underflow.{read-Failed}
use earth_rise_game.Serde.BitStream.RoundTrip.{
  Field, Fits, write_all, read_all, read-write_all, new_reader-Shows_all,
}
use earth_rise_game.Serde.Buffer.{
  protocol_version, new_write_buffer, new_read_buffer, read_bits, read_fields, is_good, to_int64,
  to_uint64,
}

-- What an `int64_t` holds.
abbrev pub IsInt64 : ℤ → Type 0
IsInt64 (pos n) = n < 2 ^ 63
IsInt64 (negsuc n) = n < 2 ^ 63

-- The conversions of WriteInt64 and ReadInt64 are inverse to each other on 64-bit integers.
pub to_int64-to_uint64 : (v : ℤ) → IsInt64 v → to_int64 (to_uint64 v) ≡ v
unfolding to_int64 to_uint64
to_int64-to_uint64 (pos n) h = ground arith
to_int64-to_uint64 (negsuc n) h = ground arith

-- The two halves of reading a buffer: its header, then its fields.
pub read_buffer_lem :
    (bytes : List ℕ)
    → let out = read 32 (new_reader bytes) in
      new_read_buffer bytes
      ≡ record { reader = out.1; version_mismatch = not ((out.0 % 2 ^ 32) == protocol_version) }
unfolding new_read_buffer read_uint32
read_buffer_lem bytes = refl

read_fields-read_all :
    (widths : List ℕ) (r : BitReader) (bad : Bool)
    → read_fields widths (record { reader = r; version_mismatch = bad })
      ≡ ((read_all widths r).0, record { reader = (read_all widths r).1; version_mismatch = bad })
unfolding read_fields read_bits read_all
read_fields-read_all [] r bad = refl
read_fields-read_all (bits ∷ widths) r bad =
    rw (read_fields-read_all widths (read bits r).1 bad) refl

header-Fits : Fits (protocol_version, 32)
header-Fits = (omega arith, omega arith, omega arith)

with_header :
    (fs : List Field)
    → write_all fs new_write_buffer ≡ write_all ((protocol_version, 32) ∷ fs) new_writer
unfolding new_write_buffer write_uint32 write_all
with_header fs = refl

read_all-cons :
    (bits : ℕ) (widths : List ℕ) (r : BitReader)
    → read_all (bits ∷ widths) r
      ≡ ((read bits r).0 ∷ (read_all widths (read bits r).1).0, (read_all widths (read bits r).1).1)
unfolding read_all
read_all-cons bits widths r = refl

is_good_lem :
    (r : BitReader) (bad : Bool)
    → r.error ≡ false
    → bad ≡ false
    → is_good (record { reader = r; version_mismatch = bad }) ≡ true
unfolding is_good
is_good_lem r bad e f = rw (e, f) refl

-- Fields of 1 to 64 bits that are written to a new write buffer are read back from its bytes by a
-- new read buffer, in order, and the buffer is good.
pub read_fields-write_all :
    (fs : List Field)
    → All Fits fs
    → let b = new_read_buffer (write_all fs new_write_buffer).buf in
      let (vs, b') = read_fields (map (λ f. f.1) fs) b in
      (vs ≡ map (λ f. f.0) fs) × (is_good b' ≡ true)
read_fields-write_all fs v =
    let bytes : List ℕ = (write_all ((protocol_version, 32) ∷ fs) new_writer).buf in
    let widths : List ℕ = map (λ f. f.1) fs in
    let first : ℕ × BitReader = read 32 (new_reader bytes) in
    let (vs, good, _) =
      rw (read_all-cons 32 widths (new_reader bytes)) at
        (read-write_all ((protocol_version, 32) ∷ fs) (header-Fits, v)) in
    let version : first.0 ≡ 1 = ap (λ (xs : List ℕ). get_or xs 0 0) vs in
    let fields : (read_all widths first.1).0 ≡ map (λ f. f.0) fs =
      ap (λ (xs : List ℕ). drop 1 xs) vs in
    let match : not ((first.0 % 2 ^ 32) == protocol_version) ≡ false = rw version refl in
    rw (with_header fs, read_buffer_lem bytes, read_fields-read_all widths first.1 _)
      (fields, is_good_lem _ _ good match)

-- A read buffer over bytes is good from the start just if there are four of them and the first four,
-- the highest first, are the protocol version.
pub is_good-new_read_buffer :
    (bytes : List ℕ)
    → IsBytes bytes
    → is_good (new_read_buffer bytes) ≡ (
        leb 4 (length bytes)
        && number_from 0 bytes / 2 ^ (length bytes * 8 - 32) == protocol_version)
unfolding is_good
is_good-new_read_buffer bytes v = elim (Bool-cases (leb 4 (length bytes))) [
  | inl e ↦
      let (val, after) =
        read-Shows 32 (new_reader bytes) (number_from 0 bytes) (length bytes * 8) (omega arith)
          (ground arith) (new_reader-Shows_all bytes v) in
      let kept : (read 32 (new_reader bytes)).0 % 2 ^ 32
          ≡ number_from 0 bytes / 2 ^ (length bytes * 8 - 32) =
        rw val (mod-eq_of_lt (first_small (ground arith))) in
      rw (read_buffer_lem bytes, e, after.good, kept)
        (twice (number_from 0 bytes / 2 ^ (length bytes * 8 - 32) == protocol_version))
  | inr e ↦
      let (failed, _) =
        read-Failed 32 (new_reader bytes) (number_from 0 bytes) (length bytes * 8) (ground arith)
          (new_reader-Shows_all bytes v) in
      rw (read_buffer_lem bytes, e, failed.1) refl
]
  where
    twice : (b : Bool) → not (not b) ≡ b
    twice true = refl
    twice false = refl

    first_small : 4 ≤ length bytes → number_from 0 bytes / 2 ^ (length bytes * 8 - 32) < 2 ^ 32
    first_small h =
        let parts : length bytes * 8 ≡ 32 + (length bytes * 8 - 32) = omega arith in
        let split : 2 ^ (length bytes * 8) ≡ 2 ^ 32 * 2 ^ (length bytes * 8 - 32) =
          ap (λ (t : ℕ). 2 ^ t) parts ∙ pow-add 32 (length bytes * 8 - 32) in
        (div-lt_iff_lt-mul (pow_pos (length bytes * 8 - 32))).1
          (rw split at (number_from-lt bytes v))
