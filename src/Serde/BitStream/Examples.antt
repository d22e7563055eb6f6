-- ===== src/Serde/BitStream/Examples.antt =====
-- Runs of the bit stream on concrete fields.
use earth_rise_game.Prelude.{ℕ, ◌≡◌, refl, false, List, [], ◌∷◌, map, arith, All}
use earth_rise_game.Serde.BitStream.{new_writer, new_reader, read, bit_length}
use earth_rise_game.Serde.BitStream.Written.{number_from}
use earth_rise_game.Serde.BitStream.Readback.{Shows}
use earth_rise_game.Serde.BitStream.Underflow.{Failed, read-Failed}
use earth_rise_game.Serde.BitStream.RoundTrip.{
  Field, Fits, write_all, read_all, fields_bits, read-write_all,
}

abbrev some_fields : List Field
some_fields = (5, 3) ∷ (300, 9) ∷ (1, 1) ∷ (65535, 16) ∷ []

fields_fit : All Fits some_fields
fields_fit = (
  (omega arith, omega arith, omega arith),
  (
    (omega arith, omega arith, omega arith),
    ((omega arith, omega arith, omega arith), ((omega arith, omega arith, omega arith), tt)),
  ),
)

read-write_all_example :
    let w = write_all some_fields new_writer in
    let (vs, r) = read_all (map (λ f. f.1) some_fields) (new_reader w.buf) in
    (vs ≡ map (λ f. f.0) some_fields) × (r.error ≡ false) × (bit_length w ≡ fields_bits some_fields)
read-write_all_example = read-write_all some_fields fields_fit

one_byte : Shows (new_reader (0xA5 ∷ [])) 0xA5 8
unfolding new_reader number_from
one_byte = record { value = refl; size = refl; bytes = (omega arith, tt); good = refl }

read-Failed_example :
    let out = read 9 (new_reader (0xA5 ∷ [])) in
    Failed out × ((more : ℕ) → read more out.1 ≡ (0, out.1))
read-Failed_example = read-Failed 9 (new_reader (0xA5 ∷ [])) 0xA5 8 (omega arith) one_byte
