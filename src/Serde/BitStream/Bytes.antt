-- ===== src/Serde/BitStream/Bytes.antt =====
-- What the writer's buffer holds are bytes.
use earth_rise_game.Prelude.{
  ℕ, zero, suc, ◌<◌, List, [], ◌∷◌, arith, ◌==◌, All, All-append, Bool-cases, inl, inr,
}
use earth_rise_game.Prelude.Bits.{bit_or-lt}
use earth_rise_game.Serde.BitStream.{BitWriter, open_byte, or_back, write_chunk, write_loop, write}

abbrev pub IsBytes : List ℕ → Type 0
IsBytes bs = All (λ b. b < 256) bs

or_back-IsBytes : (xs : List ℕ) (x : ℕ) → IsBytes xs → x < 256 → IsBytes (or_back xs x)
unfolding or_back
or_back-IsBytes [] x v h = tt
or_back-IsBytes (b ∷ []) x v h = (bit_or-lt 8 b x v.0 h, tt)
or_back-IsBytes (b ∷ c ∷ bs) x v h = (v.0, or_back-IsBytes (c ∷ bs) x v.1 h)

open_byte-IsBytes : (w : BitWriter) → IsBytes w.buf → IsBytes (open_byte w).buf
unfolding open_byte
open_byte-IsBytes w v = elim (Bool-cases (w.bits_free == 0)) [
  | inl e ↦ rw e (All-append (λ b. b < 256) w.buf (0 ∷ []) v (omega arith, tt))
  | inr e ↦ rw e v
]

write_chunk-IsBytes :
    (value left : ℕ) (w : BitWriter) → IsBytes w.buf → IsBytes (write_chunk value left w).1.buf
unfolding write_chunk
write_chunk-IsBytes value left w v =
    or_back-IsBytes (open_byte w).buf _ (open_byte-IsBytes w v) (omega arith)

write_loop-IsBytes :
    (fuel value left : ℕ) (w : BitWriter)
    → IsBytes w.buf
    → IsBytes (write_loop fuel value left w).buf
unfolding write_loop
write_loop-IsBytes zero value left w v = v
write_loop-IsBytes (suc fuel) value left w v =
    let (left', w') = write_chunk value left w in
    let rest = write_loop-IsBytes fuel value left' w' (write_chunk-IsBytes value left w v) in
    elim (Bool-cases (left == 0)) [ inl e ↦ rw e v | inr e ↦ rw e rest ]

pub write-IsBytes :
    (value bits : ℕ) (w : BitWriter) → IsBytes w.buf → IsBytes (write value bits w).buf
unfolding write
write-IsBytes value bits w v = write_loop-IsBytes bits _ bits w v
