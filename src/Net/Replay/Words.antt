-- ===== src/Net/Replay/Words.antt =====
-- The words of the replay window as bits, and what `TestBit` and `SetBit` do to them.
use native.Mathlib.Decide.{ℕ_discrete}
use native.Mathlib.Nat.{pow-le-pow_right}
use earth_rise_game.Prelude.{
  ℕ, zero, suc, ◌/◌, ◌%◌, ◌^◌, ◌≤◌, ◌<◌, ◌≡◌, ◌∙◌, bit_or, List, [], ◌∷◌, arith, ◌==◌,
  if◌then◌else◌, set, length, All, get_or-set_self, get_or-set_ne, length-set,
}
use earth_rise_game.Prelude.Bits.{bit, bit-or, bit-pow, bit_shift_mask, bit_or-lt, bit-le-one}
use earth_rise_game.Prelude.Mask.{bit_and_mask}
use earth_rise_game.Net.Replay.{word_at, test_bit, set_bit}

abbrev pub IsWord : ℕ → Type 0
IsWord w = w < 2 ^ 64

-- The shape that the array has: 16 words of 64 bits.
pub record IsWindow (ws : List ℕ) : Type 0 where
  pub size : length ws ≡ 16
  pub word : All IsWord ws

-- The bit at an offset from the highest number.
abbrev pub window_bit : List ℕ → ℕ → ℕ
window_bit ws offset = bit (offset % 64) (word_at ws (offset / 64))

pub test_bit_lem : (ws : List ℕ) (offset : ℕ) → test_bit ws offset ≡ (window_bit ws offset == 1)
unfolding test_bit
test_bit_lem ws offset =
    let x : ℕ = word_at ws (offset / 64) in
    ground (
      arith,
      bit_and_mask 1 (x / 2 ^ (offset % 64)),
      bit_shift_mask (offset % 64) x,
      bit-le-one (offset % 64) x,
    )

pub word_at-IsWord : (ws : List ℕ) (i : ℕ) → All IsWord ws → IsWord (word_at ws i)
word_at-IsWord [] i h = omega arith
word_at-IsWord (w ∷ ws) zero h = h.0
word_at-IsWord (w ∷ ws) (suc i) h = word_at-IsWord ws i h.1

pub set-IsWord : (ws : List ℕ) (i v : ℕ) → All IsWord ws → IsWord v → All IsWord (set ws i v)
set-IsWord [] i v h hv = tt
set-IsWord (w ∷ ws) zero v h hv = (hv, h.1)
set-IsWord (w ∷ ws) (suc i) v h hv = (h.0, set-IsWord ws i v h.1 hv)

-- `SetBit` sets its bit, keeps the others, and keeps the shape of the array.
pub set_bit_lem :
    (ws : List ℕ) (offset o : ℕ)
    → IsWindow ws
    → offset < 1024
    → window_bit (set_bit ws offset) o ≡ (if o == offset then 1 else window_bit ws o)
unfolding set_bit
set_bit_lem ws offset o v h = elim (ℕ_discrete (offset / 64) (o / 64)) [
  | yes e ↦
      let w : ℕ = word_at ws (offset / 64) in
      rw (← e, get_or-set_self ws (offset / 64) (bit_or w (2 ^ (offset % 64))) 0 (omega arith))
        (ground (
          arith,
          bit-or (o % 64) w (2 ^ (offset % 64)),
          bit-pow (o % 64) (offset % 64),
          bit-le-one (o % 64) w,
        ))
  | no ne ↦
      rw
        (get_or-set_ne ws (offset / 64) (o / 64)
          (bit_or (word_at ws (offset / 64)) (2 ^ (offset % 64))) 0 ne)
        (ground arith)
]

pub set_bit-IsWindow : (ws : List ℕ) (offset : ℕ) → IsWindow ws → IsWindow (set_bit ws offset)
unfolding set_bit
set_bit-IsWindow ws offset v =
    let w : ℕ = word_at ws (offset / 64) in
    let new : ℕ = bit_or w (2 ^ (offset % 64)) in
    let one : 2 ^ (offset % 64) ≤ 2 ^ 63 = pow-le-pow_right (omega arith) {j = 63} (omega arith) in
    let fits : IsWord new =
      bit_or-lt 64 w (2 ^ (offset % 64)) (word_at-IsWord ws (offset / 64) v.word) (omega arith) in
    record {
      size = length-set ws (offset / 64) new ∙ v.size;
      word = set-IsWord ws (offset / 64) new v.word fits;
    }
