-- ===== src/Serde/Parser.antt =====
-- NeuronCore/Serde.h as its clients use it: a decoder is a sequence of reads of one ReadBuffer, and
-- what it builds. A float is the 32 bits that `memcpy` copies.
pub mod Sequence
pub mod Message
use earth_rise_game.Prelude.{
  ℕ, zero, suc, ◌+◌, ◌-◌, ◌%◌, ◌^◌, Bool, not, List, [], ◌∷◌, ltb, ◌==◌, if◌then◌else◌,
}
use earth_rise_game.Prelude.Int.{ℤ, pos, negsuc}
use earth_rise_game.Serde.BitStream.{
  BitWriter, write, write_uint32, read, read_uint8, read_uint16, read_uint32, read_uint64,
}
use earth_rise_game.Serde.Buffer.{ReadBuffer, read_bits, is_good, to_int64}

abbrev pub Parser {ℓ} : Type ℓ → Type ℓ
Parser A = ReadBuffer → A × ReadBuffer

infixl 5 ◌>>=◌
unfoldable pub ◌>>=◌ {ℓ κ} : {A : Type ℓ} {B : Type κ} → Parser A → (A → Parser B) → Parser B
(p >>= q) b = let (a, b') = p b in q a b'

unfoldable pub done {ℓ} : {A : Type ℓ} → A → Parser A
done a b = (a, b)

-- `ReadUint8` to `ReadUint64` and `ReadFloat`.
unfoldable pub u8 : Parser ℕ
u8 b = let (v, r) = read_uint8 b.reader in (v, record b { reader = r })

unfoldable pub u16 : Parser ℕ
u16 b = let (v, r) = read_uint16 b.reader in (v, record b { reader = r })

unfoldable pub u32 : Parser ℕ
u32 b = let (v, r) = read_uint32 b.reader in (v, record b { reader = r })

unfoldable pub u64 : Parser ℕ
u64 b = let (v, r) = read_uint64 b.reader in (v, record b { reader = r })

abbrev pub f32 : Parser ℕ
f32 = u32

-- The conversion of an `int32_t` to a `uint32_t`, and back.
unfoldable pub to_uint32 : ℤ → ℕ
to_uint32 (pos n) = n % 2 ^ 32
to_uint32 (negsuc n) = (2 ^ 32 - 1 - n % 2 ^ 32) % 2 ^ 32

unfoldable pub to_int32 : ℕ → ℤ
to_int32 w = if ltb w (2 ^ 31) then pos w else negsuc (2 ^ 32 - w - 1)

-- `ReadInt64`, and `static_cast<int32_t>(ReadUint32())`.
unfoldable pub i64 : Parser ℤ
i64 b = let (v, r) = read_uint64 b.reader in (to_int64 v, record b { reader = r })

unfoldable pub i32 : Parser ℤ
i32 = u32 >>= λ w. done (to_int32 w)

-- `IsGood` in the middle of a message.
unfoldable pub check : Parser Bool
check b = (is_good b, b)

-- `WriteFloat`.
abbrev pub write_float : ℕ → BitWriter → BitWriter
write_float bits w = write_uint32 bits w

-- A loop that reads `n` items and appends each to a vector.
unfoldable pub repeat {ℓ} : {A : Type ℓ} → ℕ → Parser A → Parser (List A)
repeat zero p = done []
repeat (suc n) p = p >>= λ x. repeat n p >>= λ xs. done (x ∷ xs)
