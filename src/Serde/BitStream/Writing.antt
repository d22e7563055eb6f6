-- ===== src/Serde/BitStream/Writing.antt =====
-- `Write` as a whole: the field's bits, behind those that were there.
use earth_rise_game.Prelude.{
  ℕ, zero, suc, ◌+◌, ◌-◌, ◌*◌, ◌/◌, ◌%◌, ◌^◌, ◌≤◌, ◌<◌, min, ◌≡◌, refl, ap, sym, ◌∙◌, false, arith,
  ltb, ◌==◌, Bool-cases, inl, inr, ◌⊎◌,
}
use native.Mathlib.Nat.{mod-lt, mod-mod, div-lt_iff_lt-mul}
use earth_rise_game.Prelude.Bits.{pow_pos}
use earth_rise_game.Prelude.Mask.{bit_and_mask}
use earth_rise_game.Prelude.Chunks.{pow-add, mod_join}
use earth_rise_game.Serde.BitStream.{
  BitWriter, new_writer, open_byte, write_chunk, write_loop, write,
}
use earth_rise_game.Serde.BitStream.Written.{
  number_from, Holds, open_byte_full, open_byte-Ready, chunk_bits, fill_byte,
}

-- A round of `Write` adds the highest bits that are left, as many as the byte has room for.
write_chunk-Holds :
    (value left : ℕ) (w : BitWriter) (n len : ℕ)
    → Holds w n len
    → 0 < left
    → (w.bits_free ≡ 0) ⊎ (value < 2 ^ left)
    → let (left', w') = write_chunk value left w in
      (c : ℕ) × (c + left' ≡ left)
      × (0 < c)
      × Holds w' (n * 2 ^ c + value / 2 ^ left' % 2 ^ c) (len + c)
      × (0 < left' → w'.bits_free ≡ 0)
unfolding write_chunk
write_chunk-Holds value left w n len v pos fits =
    let (front, high, ready) = open_byte-Ready w n len v in
    let f : ℕ = (open_byte w).bits_free in
    let c : ℕ = min left f in
    let r : ℕ = left - c in
    let x : ℕ = value / 2 ^ r in
    let whole : c + (f - c) ≡ f = omega arith in
    let rest : c + r ≡ left = omega arith in
    let fits' : (f ≡ 8) ⊎ (x < 2 ^ c) = elim fits [
      | inl e ↦ inl (ap (λ (u : BitWriter). u.bits_free) (open_byte_full w e))
      | inr small ↦ inr (div-lt c r rest small)
    ] in
    let bits = chunk_bits x c (f - c) f whole ready.few fits' in
    let some : 0 < c = omega (arith, ready.some) in
    (
      c,
      rest,
      some,
      fill_byte (open_byte w) n len front high _ c (f - c) (x % 2 ^ c) ready whole some
          (mod-lt x (pow_pos c)) bits,
      λ h. omega arith,
    )
  where
    div-lt : (c r : ℕ) → c + r ≡ left → value < 2 ^ left → value / 2 ^ r < 2 ^ c
    div-lt c r e small =
        let split : 2 ^ left ≡ 2 ^ c * 2 ^ r = ap (λ (t : ℕ). 2 ^ t) (sym e) ∙ pow-add c r in
        (div-lt_iff_lt-mul (pow_pos r)).1 (rw split at small)

write_loop_stop : (fuel value : ℕ) (w : BitWriter) → write_loop fuel value 0 w ≡ w
unfolding write_loop
write_loop_stop zero value w = refl
write_loop_stop (suc fuel) value w = refl

write_loop_go :
    (fuel value left : ℕ) (w : BitWriter)
    → 0 < left
    → write_loop (suc fuel) value left w
      ≡ write_loop fuel value (write_chunk value left w).0 (write_chunk value left w).1
unfolding write_loop
write_loop_go fuel value left w h = let no : (left == 0) ≡ false = ground arith in rw no refl

pub same_stream :
    (w : BitWriter) (n n' len len' : ℕ) → n ≡ n' → len ≡ len' → Holds w n len → Holds w n' len'
same_stream w n n' len len' e f v = record {
  value = v.value ∙ ap (λ (t : ℕ). t * 2 ^ w.bits_free) e;
  size = v.size ∙ ap (λ (t : ℕ). t + w.bits_free) f;
  few = v.few;
  last = v.last;
}

-- With a round for each bit the loop writes all bits that are left.
write_loop-Holds :
    (fuel value left : ℕ) (w : BitWriter) (n len : ℕ)
    → left ≤ fuel
    → Holds w n len
    → (0 < left → (w.bits_free ≡ 0) ⊎ (value < 2 ^ left))
    → Holds (write_loop fuel value left w) (n * 2 ^ left + value % 2 ^ left) (len + left)
write_loop-Holds fuel value zero w n len room v fits =
    rw (write_loop_stop fuel value w) (same_stream w n _ len _ (omega arith) (omega arith) v)
write_loop-Holds zero value (suc left) w n len room v fits = absurd (omega arith)
write_loop-Holds (suc fuel) value (suc left) w n len room v fits =
    let (c, parts, some, holds, full) =
      write_chunk-Holds value (suc left) w n len v (omega arith) (fits (omega arith)) in
    let r : ℕ = (write_chunk value (suc left) w).0 in
    let rest =
      write_loop-Holds fuel value r (write_chunk value (suc left) w).1
        (n * 2 ^ c + value / 2 ^ r % 2 ^ c) (len + c) (omega arith) holds (λ h. inl (full h)) in
    rw (write_loop_go fuel value (suc left) w (omega arith))
      (same_stream _ _ _ _ _ (joined c r parts) (omega arith) rest)
  where
    joined :
        (c r : ℕ)
        → c + r ≡ suc left
        → (n * 2 ^ c + value / 2 ^ r % 2 ^ c) * 2 ^ r + value % 2 ^ r
          ≡ n * 2 ^ suc left + value % 2 ^ suc left
    joined c r e =
        let split : 2 ^ suc left ≡ 2 ^ c * 2 ^ r = ap (λ (t : ℕ). 2 ^ t) (sym e) ∙ pow-add c r in
        rw split (grind (arith, mod_join value (2 ^ r) (2 ^ c) (pow_pos r) (pow_pos c)))

pub new_writer-Holds : Holds new_writer 0 0
unfolding new_writer number_from
new_writer-Holds = record { value = refl; size = refl; few = omega arith; last = inl refl }

-- `Write` of a 64-bit value appends its lowest bits, highest first, to what the stream holds.
pub write-Holds :
    (value bits : ℕ) (w : BitWriter) (n len : ℕ)
    → value < 2 ^ 64
    → bits ≤ 64
    → Holds w n len
    → Holds (write value bits w) (n * 2 ^ bits + value % 2 ^ bits) (len + bits)
unfolding write
write-Holds value bits w n len v64 b64 v = elim (Bool-cases (ltb bits 64)) [
  | inl e ↦
      rw (e, bit_and_mask bits value)
        (same_stream _ _ _ _ _ (ap (λ (t : ℕ). n * 2 ^ bits + t) (mod-mod value (2 ^ bits))) refl (
          write_loop-Holds bits (value % 2 ^ bits) bits w n len (omega arith) v
            (λ h. inr (mod-lt value (pow_pos bits)))))
  | inr e ↦
      rw e
        (write_loop-Holds bits value bits w n len (omega arith) v (λ h. inr (all (ground arith))))
]
  where
    all : bits ≡ 64 → value < 2 ^ bits
    all e = rw e v64
