-- ===== src/Net/Replay/Examples.antt =====
-- The replay window on a few packet numbers.
use earth_rise_game.Prelude.{ℕ, ◌≡◌, refl, true, false, List, [], ◌∷◌, arith, replicate}
use earth_rise_game.Net.Replay.{
  fresh, run, check_and_update, set_bit, test_bit, slide_forward, slide_loop, whole_word,
  split_word, clear,
}
use earth_rise_game.Net.Replay.Words.{IsWindow}
use earth_rise_game.Prelude.Sets.{Distinct}
use earth_rise_game.Net.Replay.History
use earth_rise_game.Net.Replay.History.{is_fresh, remember, top}
use earth_rise_game.Net.Replay.Safety.{run-Distinct, accepted, fresh_refines}

-- 5 first, 5 again, 70 ahead, 6 unseen behind it, 6 again, a jump out of the window, and 70 too old.
abbrev arrivals : List ℕ
arrivals = 5 ∷ 5 ∷ 70 ∷ 6 ∷ 6 ∷ 2000 ∷ 70 ∷ []

run-arrivals : run fresh arrivals ≡ true ∷ false ∷ true ∷ true ∷ false ∷ true ∷ false ∷ []
unfolding run fresh check_and_update set_bit test_bit slide_forward slide_loop whole_word split_word
    clear
run-arrivals = refl

run-Distinct_example : Distinct (accepted arrivals (run fresh arrivals))
run-Distinct_example = run-Distinct arrivals

fresh_refines_example : run fresh arrivals ≡ History.run [] arrivals
fresh_refines_example = fresh_refines arrivals

abbrev two_words : List ℕ
two_words = 1 ∷ 2 ∷ replicate 14 0

two_words-IsWindow : IsWindow two_words
two_words-IsWindow = record { size = refl; word = omega arith }
