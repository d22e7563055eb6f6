-- ===== src/Economy/Keys/Examples.antt =====
-- Keys of concrete events.
use earth_rise_game.Prelude.{ℕ, ◌+◌, ◌*◌, ◌^◌, ◌≡◌, refl, arith}
use earth_rise_game.Economy.Keys.{outbox_idem_key, map_econ_event, cargo_lost}
use earth_rise_game.Prelude.Int.{pos, negsuc}
use earth_rise_game.Economy.Keys.Events.{events_differ}
use earth_rise_game.Economy.Keys.Meeting.{keys_meet}

keys_meet_example : outbox_idem_key 3 (50 * 2) (2 ^ 21 + 7) ≡ outbox_idem_key 3 (50 * 2 + 1) 7
keys_meet_example = keys_meet 3 50 7 (omega arith) (omega arith)

-- Lost cargo is a debit.
debit : (map_econ_event cargo_lost 9 0 (pos 120) 5).amount ≡ negsuc 119
debit = unfold map_econ_event in refl

events_differ_example : (◌≡◌ {A = ℕ} 9 9) × (◌≡◌ {A = ℕ} 5 5)
events_differ_example =
    events_differ 2 9 0 (pos 120) 5 9 1 (pos 7) 5 (omega arith) (omega arith) (omega arith)
      (omega arith) (omega arith) same
  where
    same : (map_econ_event 2 9 0 (pos 120) 5).idem_key ≡ (map_econ_event 2 9 1 (pos 7) 5).idem_key
    same = unfold map_econ_event in refl
