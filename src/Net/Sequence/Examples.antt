-- ===== src/Net/Sequence/Examples.antt =====
-- Sequence numbers round the wrap.
use earth_rise_game.Prelude.{◌≡◌, refl, true, false, arith}
use earth_rise_game.Prelude.Int.{pos, negsuc}
use earth_rise_game.Net.Sequence.{seq_greater, seq_diff}
use earth_rise_game.Net.Sequence.Laws.{seq_diff_half}

after_the_wrap : seq_greater 3 65530 ≡ true
unfolding seq_greater
after_the_wrap = refl

diff_over_the_wrap : seq_diff 3 65530 ≡ pos 9
unfolding seq_diff
diff_over_the_wrap = refl

seq_diff_half_example :
    (seq_greater 40000 7232 ≡ true)
    × (seq_greater 7232 40000 ≡ false)
    × (seq_diff 40000 7232 ≡ negsuc 32767)
    × (seq_diff 7232 40000 ≡ negsuc 32767)
seq_diff_half_example = seq_diff_half 40000 7232 (omega arith) (omega arith)
