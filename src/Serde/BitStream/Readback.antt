-- ===== src/Serde/BitStream/Readback.antt =====
-- What `Read` takes from a stream: its next bits, as a number.
use native.Mathlib.Nat.{mod-lt}
use earth_rise_game.Prelude.{
  ℕ, zero, suc, ◌+◌, ◌-◌, ◌*◌, ◌/◌, ◌%◌, ◌^◌, ◌≤◌, ◌<◌, min, bit_or, bit_and, ◌≡◌, refl, ap, sym,
  ◌∙◌, true, false, List, [], ◌∷◌, arith, leb, ◌==◌, length, drop, get_or, length-drop, Bool-cases,
  inl, inr,
}
use earth_rise_game.Prelude.Bits.{pow_pos}
use earth_rise_game.Prelude.Mask.{bit_and_mask}
use earth_rise_game.Prelude.Chunks.{pow-add, below_chunk, mod_join}
use earth_rise_game.Serde.BitStream.{BitReader, next_byte, read_loop}
use earth_rise_game.Serde.BitStream.Bytes.{IsBytes}
use earth_rise_game.Serde.BitStream.Written.{number_from}

-- The bits that are left to read are the number `m` of `a` bits.
pub record Shows (r : BitReader) (m a : ℕ) : Type 0 where
  pub value : number_from (r.current % 2 ^ r.bit_avail) (drop r.byte_pos r.data_bytes) ≡ m
  pub size : r.bit_avail + length (drop r.byte_pos r.data_bytes) * 8 ≡ a
  pub bytes : IsBytes (drop r.byte_pos r.data_bytes)
  pub good : r.error ≡ false

number_from-cons :
    (high b : ℕ) (bs : List ℕ) → number_from high (b ∷ bs) ≡ number_from (high * 256 + b) bs
unfolding number_from
number_from-cons high b bs = refl

number_from_split :
    (high : ℕ) (bs : List ℕ) → number_from high bs ≡ high * 2 ^ (length bs * 8) + number_from 0 bs
unfolding number_from
number_from_split high [] = omega arith
number_from_split high (b ∷ bs) =
    let up : suc (length bs) * 8 ≡ 8 + length bs * 8 = omega arith in
    rw
      (
        up,
        pow-add 8 (length bs * 8),
        number_from_split (high * 256 + b) bs,
        number_from_split (0 * 256 + b) bs,
      )
      (grind arith)

pub number_from-lt : (bs : List ℕ) → IsBytes bs → number_from 0 bs < 2 ^ (length bs * 8)
unfolding number_from
number_from-lt [] v = omega arith
number_from-lt (b ∷ bs) v =
    let up : suc (length bs) * 8 ≡ 8 + length bs * 8 = omega arith in
    let low : 0 * 256 + b ≡ b = omega arith in
    rw (up, pow-add 8 (length bs * 8), low, number_from_split b bs)
      (below_chunk b 256 (2 ^ (length bs * 8)) (number_from 0 bs) v.0 (number_from-lt bs v.1))

drop-cons : (i : ℕ) (xs : List ℕ) → i < length xs → drop i xs ≡ get_or xs i 0 ∷ drop (i + 1) xs
drop-cons i [] h = absurd (omega arith)
drop-cons zero (x ∷ xs) h = refl
drop-cons (suc i) (x ∷ xs) h =
    let next : suc i + 1 ≡ suc (i + 1) = omega arith in rw next (drop-cons i xs (omega arith))

next_byte_part : (r : BitReader) → 0 < r.bit_avail → next_byte r ≡ r
unfolding next_byte
next_byte_part r h = let no : (r.bit_avail == 0) ≡ false = ground arith in rw no refl

next_byte_more :
    (r : BitReader)
    → r.bit_avail ≡ 0
    → r.byte_pos < length r.data_bytes
    → next_byte r ≡ record r {
      current = get_or r.data_bytes r.byte_pos 0;
      byte_pos = r.byte_pos + 1;
      bit_avail = 8;
    }
unfolding next_byte
next_byte_more r e h =
    let no : leb (length r.data_bytes) r.byte_pos ≡ false = ground arith in rw (e, no) refl

pub next_byte_none :
    (r : BitReader)
    → r.bit_avail ≡ 0
    → length r.data_bytes ≤ r.byte_pos
    → next_byte r ≡ record r { error = true }
unfolding next_byte
next_byte_none r e h =
    let yes : leb (length r.data_bytes) r.byte_pos ≡ true = ground arith in rw (e, yes) refl

-- As long as bits are left, a round starts with a byte to take them from.
pub next_byte-Shows :
    (r : BitReader) (m a : ℕ)
    → Shows r m a
    → 0 < a
    → Shows (next_byte r) m a × (0 < (next_byte r).bit_avail)
next_byte-Shows r m a v some = elim (Bool-cases (r.bit_avail == 0)) [
  | inr e ↦ rw (next_byte_part r (ground arith)) (v, ground arith)
  | inl t ↦
      let e : r.bit_avail ≡ 0 = ground arith in
      let more : r.byte_pos < length r.data_bytes =
        omega (arith, e, v.size, length-drop r.byte_pos r.data_bytes) in
      rw (next_byte_more r e more) (fetched e more, omega arith)
]
  where
    fresh : {b : ℕ} → r.bit_avail ≡ 0 → b < 256 → b % 256 ≡ r.current % 2 ^ r.bit_avail * 256 + b
    fresh e h =
        let none_left : r.current % 2 ^ r.bit_avail ≡ 0 = rw e (omega arith) in
        omega (arith, none_left)

    fetched :
        r.bit_avail ≡ 0
        → r.byte_pos < length r.data_bytes
        → Shows
            (record r {
              current = get_or r.data_bytes r.byte_pos 0;
              byte_pos = r.byte_pos + 1;
              bit_avail = 8;
            })
            m
            a
    fetched e more =
        let cut = drop-cons r.byte_pos r.data_bytes more in
        let bytes : IsBytes
            (get_or r.data_bytes r.byte_pos 0 ∷ drop (r.byte_pos + 1) r.data_bytes) =
          rw cut at v.bytes in
        record {
          value =
              ap (λ (h : ℕ). number_from h (drop (r.byte_pos + 1) r.data_bytes)) (fresh e bytes.0)
              ∙ sym (number_from-cons _ _ _)
              ∙ ap (number_from (r.current % 2 ^ r.bit_avail)) (sym cut)
              ∙ v.value;
          size = omega (arith, ap length cut, v.size, e);
          bytes = bytes.1;
          good = v.good;
        }

-- A round takes the next `c` bits.
pub take_bits :
    (r : BitReader) (m a c s : ℕ)
    → Shows r m a
    → c + s ≡ r.bit_avail
    → let y = bit_and (r.current / 2 ^ s) (2 ^ c - 1) in
      (m' : ℕ) × Shows (record r { bit_avail = s }) m' (a - c)
      × (c ≤ a)
      × (y < 2 ^ c)
      × (m ≡ y * 2 ^ (a - c) + m')
take_bits r m a c s v e =
    let rest : List ℕ = drop r.byte_pos r.data_bytes in
    let split : 2 ^ r.bit_avail ≡ 2 ^ c * 2 ^ s = ap (λ (t : ℕ). 2 ^ t) (sym e) ∙ pow-add c s in
    let x : ℕ = r.current / 2 ^ s % 2 ^ c in
    let joined : r.current % 2 ^ r.bit_avail ≡ x * 2 ^ s + r.current % 2 ^ s =
      ap (λ (t : ℕ). r.current % t) split
      ∙ sym (mod_join r.current (2 ^ s) (2 ^ c) (pow_pos s) (pow_pos c)) in
    let left : a - c ≡ s + length rest * 8 = omega (arith, v.size) in
    let parts : m ≡ x * 2 ^ (a - c) + number_from (r.current % 2 ^ s) rest =
      sym v.value
      ∙ ap (λ (t : ℕ). number_from t rest) joined
      ∙ number_from_split (x * 2 ^ s + r.current % 2 ^ s) rest
      ∙ rw (left, pow-add s (length rest * 8), number_from_split (r.current % 2 ^ s) rest)
          (grind arith) in
    let mask : bit_and (r.current / 2 ^ s) (2 ^ c - 1) ≡ x = bit_and_mask c (r.current / 2 ^ s) in
    (
      number_from (r.current % 2 ^ s) rest,
      record { value = refl; size = sym left; bytes = v.bytes; good = v.good },
      omega (arith, v.size),
      rw mask (mod-lt (r.current / 2 ^ s) (pow_pos c)),
      rw mask parts,
    )

pub Shows-lt : (r : BitReader) (m a : ℕ) → Shows r m a → m < 2 ^ a
Shows-lt r m a v =
    let rest : List ℕ = drop r.byte_pos r.data_bytes in
    let total : 2 ^ a ≡ 2 ^ r.bit_avail * 2 ^ (length rest * 8) =
      ap (λ (t : ℕ). 2 ^ t) (sym v.size) ∙ pow-add r.bit_avail (length rest * 8) in
    let same : m ≡ r.current % 2 ^ r.bit_avail * 2 ^ (length rest * 8) + number_from 0 rest =
      sym v.value ∙ number_from_split (r.current % 2 ^ r.bit_avail) rest in
    rw (total, same)
      (below_chunk (r.current % 2 ^ r.bit_avail) (2 ^ r.bit_avail) (2 ^ (length rest * 8))
        (number_from 0 rest) (mod-lt r.current (pow_pos r.bit_avail)) (number_from-lt rest v.bytes))

pub read_loop_stop : (fuel result : ℕ) (r : BitReader) → read_loop fuel 0 result r ≡ (result, r)
unfolding read_loop
read_loop_stop zero result r = refl
read_loop_stop (suc fuel) result r = refl

pub read_loop_go :
    (fuel left result : ℕ) (r : BitReader)
    → 0 < left
    → (next_byte r).error ≡ false
    → let r' = next_byte r in
      let c = min left r'.bit_avail in
      read_loop (suc fuel) left result r
      ≡ read_loop fuel
          (left - c)
          (bit_or
            (result * 2 ^ c % 2 ^ 64)
            (bit_and (r'.current / 2 ^ (r'.bit_avail - c)) (2 ^ c - 1)))
          (record r' { bit_avail = r'.bit_avail - c })
unfolding read_loop
read_loop_go fuel left result r h good =
    let no : (left == 0) ≡ false = ground arith in rw (no, good) refl
