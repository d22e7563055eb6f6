-- ===== src/Serde/Parser/Message.antt =====
-- A message: fields behind the version header, decoded to the end.
use earth_rise_game.Prelude.{
  ℕ, ◌+◌, ◌*◌, ◌/◌, ◌%◌, ◌^◌, ◌<◌, ◌≡◌, refl, ap, ◌∙◌, true, false, not, List, [], ◌∷◌, arith, ◌==◌,
  length, All,
}
use earth_rise_game.Prelude.Bits.{pow_pos}
use earth_rise_game.Prelude.Chunks.{pow-add, below_chunk}
use earth_rise_game.Serde.BitStream.{BitWriter, new_writer, new_reader, write_uint32, read}
use earth_rise_game.Serde.BitStream.Written.{Holds}
use earth_rise_game.Serde.BitStream.Writing.{same_stream, new_writer-Holds}
use earth_rise_game.Serde.BitStream.Bytes.{IsBytes}
use earth_rise_game.Serde.BitStream.Readback.{Shows}
use earth_rise_game.Serde.BitStream.RoundTrip.{
  Field, Fits, write_all, fields_bits, fields_number, fields_number-lt, write_all-Holds,
  new_reader-Shows,
}
use earth_rise_game.Serde.Buffer.{
  ReadBuffer, protocol_version, new_write_buffer, new_read_buffer, is_good,
}
use earth_rise_game.Serde.Buffer.Version.{read_buffer_lem}
use earth_rise_game.Serde.Parser.{Parser}
use earth_rise_game.Serde.Parser.Sequence.{
  Parses, read_one, fields_number-append, fields_bits-append,
}

-- The bytes of a message.
abbrev pub message : List Field → List ℕ
message fs = (write_all fs new_write_buffer).buf

header_lem :
    (fs : List Field)
    → write_all fs new_write_buffer ≡ write_all ((protocol_version, 32) ∷ fs) new_writer
unfolding new_write_buffer write_uint32 write_all
header_lem fs = refl

new_writer-IsBytes : IsBytes new_writer.buf
new_writer-IsBytes = unfold new_writer in tt

pub is_good_lem :
    (b : ReadBuffer) → b.reader.error ≡ false → b.version_mismatch ≡ false → is_good b ≡ true
unfolding is_good
is_good_lem b e f = rw (e, f) refl

-- A message has the bytes that its version and its fields need.
pub length-message :
    (fs : List Field) → All Fits fs → length (message fs) ≡ (32 + fields_bits fs + 7) / 8
length-message fs v =
    let one : Fits (protocol_version, 32) = (omega arith, omega arith, omega arith) in
    let (h, bytes) =
      write_all-Holds ((protocol_version, 32) ∷ fs) new_writer 0 0 (one, v) new_writer-Holds
        new_writer-IsBytes in
    let size : fields_bits ((protocol_version, 32) ∷ fs) ≡ 32 + fields_bits fs =
      unfold fields_bits in refl in
    ap (λ (u : BitWriter). length u.buf) (header_lem fs) ∙ omega (arith, h.size, h.few, size)

-- A new read buffer over a message is good, and shows its fields.
pub message_start :
    (fs : List Field)
    → All Fits fs
    → let b = new_read_buffer (message fs) in
      (free : ℕ) × Shows b.reader (fields_number fs * 2 ^ free + 0) (fields_bits fs + free)
      × (b.version_mismatch ≡ false)
message_start fs v =
    let all : List Field = (protocol_version, 32) ∷ [] in
    let one : Fits (protocol_version, 32) = (omega arith, omega arith, omega arith) in
    let w : BitWriter = write_all ((protocol_version, 32) ∷ fs) new_writer in
    let (h, bytes) =
      write_all-Holds ((protocol_version, 32) ∷ fs) new_writer 0 0 (one, v) new_writer-Holds
        new_writer-IsBytes in
    let h' : Holds w (fields_number ((protocol_version, 32) ∷ fs))
        (fields_bits ((protocol_version, 32) ∷ fs)) =
      same_stream w _ _ _ _ (omega arith) (omega arith) h in
    let free : ℕ = w.bits_free in
    let rest : ℕ = fields_number fs * 2 ^ free + 0 in
    let below : rest < 2 ^ (fields_bits fs + free) = rw (pow-add (fields_bits fs) free) (
      below_chunk (fields_number fs) (2 ^ fields_bits fs) (2 ^ free) 0 (fields_number-lt fs v)
        (pow_pos free)) in
    let front : fields_number ((protocol_version, 32) ∷ fs) * 2 ^ free + 0
        ≡ fields_number all * 2 ^ (fields_bits fs + free) + rest =
      rw (fields_number-append all fs, pow-add (fields_bits fs) free) (grind arith) in
    let width : fields_bits ((protocol_version, 32) ∷ fs) + free
        ≡ fields_bits all + (fields_bits fs + free) =
      omega (arith, fields_bits-append all fs) in
    let (val, after) =
      read_one protocol_version 32 one (new_reader w.buf) (fields_bits fs + free) rest below
        (rw (front, width) at (new_reader-Shows w _ _ h' bytes)) in
    let kept : not (((read 32 (new_reader w.buf)).0 % 2 ^ 32) == protocol_version) ≡ false =
      rw val refl in
    rw (ap (λ (u : BitWriter). new_read_buffer u.buf) (header_lem fs) ∙ read_buffer_lem w.buf)
      (free, after, kept)

module _ {ℓ} {A : Type ℓ} where
  -- A message is decoded to what its fields stand for, and the buffer is good before and after.
  pub parse-message :
      (p : Parser A) (fs : List Field) (a : A)
      → Parses p fs a
      → let b = new_read_buffer (message fs) in
        (is_good b ≡ true) × ((p b).0 ≡ a) × (is_good (p b).1 ≡ true)
  parse-message p fs a h =
      let b : ReadBuffer = new_read_buffer (message fs) in
      let (free, shown, same) = message_start fs h.fit in
      let (val, after, kept) = h.reads b free 0 (pow_pos free) same shown in
      (is_good_lem b shown.good same, val, is_good_lem (p b).1 after.good kept)
