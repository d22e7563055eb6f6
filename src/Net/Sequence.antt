-- ===== src/Net/Sequence.antt =====
-- NeuronCore/SequenceMath.h: 16-bit sequence numbers that wrap at 65536.
pub mod Laws
mod Examples
use earth_rise_game.Prelude.{ℕ, ◌+◌, ◌-◌, ◌%◌, ◌^◌, Bool, ◌&&◌, ◌||◌, ltb, leb, if◌then◌else◌}
use earth_rise_game.Prelude.Int.{ℤ, pos, negsuc}

-- `SeqGreater`. The operands are promoted to `int`; each subtraction stands behind its comparison.
unfoldable pub seq_greater : ℕ → ℕ → Bool
seq_greater s1 s2 = (ltb s2 s1 && leb (s1 - s2) 32768) || (ltb s1 s2 && ltb 32768 (s2 - s1))

-- `SeqLess`.
pub seq_less : ℕ → ℕ → Bool
seq_less s1 s2 = seq_greater s2 s1

-- The conversion of a `uint16_t` to an `int16_t`.
abbrev pub to_int16 : ℕ → ℤ
to_int16 w = if ltb w 32768 then pos w else negsuc (65536 - w - 1)

-- `SeqDiff`: the `uint16_t` difference, read as an `int16_t`.
unfoldable pub seq_diff : ℕ → ℕ → ℤ
seq_diff s1 s2 = to_int16 ((s1 + 65536 - s2) % 65536)
