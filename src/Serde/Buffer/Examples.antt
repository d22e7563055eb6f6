-- ===== src/Serde/Buffer/Examples.antt =====
-- Runs of the buffers on concrete fields.
use earth_rise_game.Prelude.{List, [], ◌∷◌, arith, All}
use earth_rise_game.Serde.BitStream.RoundTrip.{Field, Fits}

abbrev two_fields : List Field
two_fields = (3, 2) ∷ (70000, 17) ∷ []

two_fields_fit : All Fits two_fields
two_fields_fit =
    ((omega arith, omega arith, omega arith), ((omega arith, omega arith, omega arith), tt))
