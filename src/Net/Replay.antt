-- ===== src/Net/Replay.antt =====
-- NeuronCore/ReplayWindow.h: a sliding window over the 64-bit packet numbers, as 16 words of 64 bits.
pub mod Words
pub mod Slide
pub mod History
pub mod Refine
pub mod Safety
mod Examples
use earth_rise_game.Prelude.{
  ℕ, zero, suc, ◌+◌, ◌-◌, ◌*◌, ◌/◌, ◌%◌, ◌^◌, bit_and, bit_or, Bool, true, false, not, List, [],
  ◌∷◌, ltb, leb, ◌==◌, if◌then◌else◌, get_or, set, replicate,
}

abbrev pub window_bits : ℕ
window_bits = 1024

abbrev pub words : ℕ
words = window_bits / 64

-- `class ReplayWindow`.
pub record ReplayWindow : Type 0 where
  pub bits : List ℕ
  pub highest : ℕ
  pub seen_any : Bool

-- The member initialisers, and what `Reset` leaves.
pub fresh : ReplayWindow
fresh = record { bits = replicate words 0; highest = 0; seen_any = false }

abbrev pub word_at : List ℕ → ℕ → ℕ
word_at ws i = get_or ws i 0

-- `TestBit`: offset 0 is the highest number.
pub test_bit : List ℕ → ℕ → Bool
test_bit ws offset = not (bit_and (word_at ws (offset / 64) / 2 ^ (offset % 64)) 1 == 0)

-- `SetBit`.
pub set_bit : List ℕ → ℕ → List ℕ
set_bit ws offset = set ws (offset / 64) (bit_or (word_at ws (offset / 64)) (2 ^ (offset % 64)))

-- The right-hand sides of the two loops of `SlideForward`, for word `i`.
pub whole_word : ℕ → ℕ → List ℕ → ℕ
whole_word word_shift i ws = if leb word_shift i then word_at ws (i - word_shift) else 0

-- `v |= m_bits[lo] << bitShift` if `lo >= 0`, then `v |= m_bits[hi] >> (64 - bitShift)` if `hi >= 0`.
pub split_word : ℕ → ℕ → ℕ → List ℕ → ℕ
split_word word_shift bit_shift i ws =
    let v =
      if leb word_shift i
      then bit_or 0 (word_at ws (i - word_shift) * 2 ^ bit_shift % 2 ^ 64)
      else 0 in
    if leb (word_shift + 1) i
    then bit_or v (word_at ws (i - word_shift - 1) / 2 ^ (64 - bit_shift))
    else v

-- `for (int i = n - 1; i >= 0; --i) m_bits[i] = word(i)`, in place.
pub slide_loop : (ℕ → List ℕ → ℕ) → ℕ → List ℕ → List ℕ
slide_loop word zero ws = ws
slide_loop word (suc i) ws = slide_loop word i (set ws i (word i ws))

-- `for (auto& w : m_bits) w = 0`.
pub clear : List ℕ → List ℕ
clear [] = []
clear (w ∷ ws) = 0 ∷ clear ws

-- `SlideForward`.
pub slide_forward : ℕ → List ℕ → List ℕ
slide_forward shift ws =
    if leb window_bits shift
    then clear ws
    else if (shift % 64) == 0
    then slide_loop (whole_word (shift / 64)) words ws
    else slide_loop (split_word (shift / 64) (shift % 64)) words ws

-- `CheckAndUpdate`. The subtractions stand behind their comparisons, so none wraps.
pub check_and_update : ℕ → ReplayWindow → Bool × ReplayWindow
check_and_update pn w =
    if not w.seen_any
    then (true, record w { bits = set_bit w.bits 0; highest = pn; seen_any = true })
    else if ltb w.highest pn
    then (true, record w { bits = set_bit (slide_forward (pn - w.highest) w.bits) 0; highest = pn })
    else let offset = w.highest - pn in
      if leb window_bits offset
      then (false, w)
      else if test_bit w.bits offset
      then (false, w)
      else (true, record w { bits = set_bit w.bits offset })

-- `Reset`.
pub reset : ReplayWindow → ReplayWindow
reset w = record { bits = clear w.bits; highest = 0; seen_any = false }

-- A receiver that asks the window of each packet number in turn.
pub run : ReplayWindow → List ℕ → List Bool
run w [] = []
run w (pn ∷ pns) = let (fresh_pn, w') = check_and_update pn w in fresh_pn ∷ run w' pns
