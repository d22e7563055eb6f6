-- ===== src/Net/Routing/Examples.antt =====
-- A connection table through an opening, a closing and a reuse of its slot.
use earth_rise_game.Prelude.{◌≡◌, refl, true, false, List, [], ◌∷◌, arith, length}
use earth_rise_game.Prelude.Maps.{lookup, insert, erase}
use earth_rise_game.Net.Codec.{PacketHeader}
use earth_rise_game.Net.Routing.{
  ConnectionTable, Call, opens, closes, empty_table, handle_for, take_slot, fill_slot,
  open_connection, close_connection, find, validate, step, run,
}
use earth_rise_game.Net.Routing.Slots.{IsTable}
use earth_rise_game.Net.Routing.Invariant.{run-IsTable}
use earth_rise_game.Net.Routing.Handles.{closed_handle_stale}

abbrev calls : List Call
calls = opens 70 ∷ opens 80 ∷ closes 70 ∷ opens 90 ∷ []

run-calls : run empty_table calls ≡ record {
  slots =
      record { token = 90; generation = 1; active = true }
      ∷ record { token = 80; generation = 0; active = true }
      ∷ [];
  free = [];
  by_token = (80, 1) ∷ (90, 0) ∷ [];
}
unfolding run step open_connection close_connection take_slot fill_slot lookup insert erase
    handle_for
run-calls = refl

run-IsTable_example : IsTable (run empty_table calls)
run-IsTable_example = run-IsTable calls (omega arith)

abbrev one_open : ConnectionTable
one_open = run empty_table (opens 70 ∷ [])

closed_handle_stale_example :
    validate (find 70 one_open) (run (close_connection 70 one_open) (opens 70 ∷ [])) ≡ false
closed_handle_stale_example =
    closed_handle_stale one_open 70 (opens 70 ∷ []) (run-IsTable (opens 70 ∷ []) (omega arith))
      (omega arith)

-- Both handles are for slot 0; the second is of the next generation.
reopened :
    find 70 (run (close_connection 70 one_open) (opens 70 ∷ []))
    ≡ record { index = 0; generation = 1; valid = true }
unfolding run step open_connection close_connection find take_slot fill_slot lookup insert erase
    handle_for
reopened = refl

length-one_open : length one_open.slots ≡ 1
unfolding run step open_connection take_slot fill_slot lookup
length-one_open = refl

abbrev header : PacketHeader
header = record { protocol_id = 0x45520001; connection_token = 77; packet_number = 3 }
