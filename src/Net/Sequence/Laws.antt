-- ===== src/Net/Sequence/Laws.antt =====
-- The order of SequenceMath.h: where it is an order, and where its two functions part.
use earth_rise_game.Prelude.{ℕ, ◌+◌, ◌%◌, ◌<◌, ◌≡◌, ◌≢◌, true, false, not, arith, ltb}
use earth_rise_game.Prelude.Int.{pos, negsuc, neg_part, pos_part}
use earth_rise_game.Net.Sequence.{seq_greater, seq_less, seq_diff}

abbrev pub IsSeq : ℕ → Type 0
IsSeq s = s < 65536

-- Of two distinct sequence numbers exactly one is newer.
pub seq_greater_total : (a b : ℕ) → IsSeq a → IsSeq b → a ≢ b → seq_greater a b ≡ not (seq_less a b)
unfolding seq_greater seq_less
seq_greater_total a b ha hb ne = ground arith

-- A number is newer than those up to 32767 steps behind it, wherever the wrap falls, and not newer
-- than those up to 32767 steps ahead or itself.
pub seq_greater_window :
    (s k : ℕ)
    → IsSeq s
    → k < 32768
    → (seq_greater ((s + k) % 65536) s ≡ ltb 0 k) × (seq_greater s ((s + k) % 65536) ≡ false)
unfolding seq_greater
seq_greater_window s k hs hk = ground arith

-- `SeqDiff` inverts an advance by at most 32767, whichever way.
pub seq_diff_window :
    (s k : ℕ)
    → IsSeq s
    → k < 32768
    → (seq_diff ((s + k) % 65536) s ≡ pos k)
      × (pos_part (seq_diff s ((s + k) % 65536)) ≡ 0)
      × (neg_part (seq_diff s ((s + k) % 65536)) ≡ k)
unfolding seq_diff
seq_diff_window s k hs hk = ground arith

-- At a distance of exactly 32768 the two functions disagree: the larger number is newer for
-- `SeqGreater`, while `SeqDiff` gives -32768 both ways.
pub seq_diff_half :
    (a b : ℕ)
    → IsSeq a
    → a ≡ b + 32768
    → (seq_greater a b ≡ true)
      × (seq_greater b a ≡ false)
      × (seq_diff a b ≡ negsuc 32767)
      × (seq_diff b a ≡ negsuc 32767)
unfolding seq_greater seq_diff
seq_diff_half a b ha e = ground arith
