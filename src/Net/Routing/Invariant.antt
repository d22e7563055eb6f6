-- ===== src/Net/Routing/Invariant.antt =====
-- The invariant of a connection table over whole histories of calls.
use earth_rise_game.Prelude.{
  ℕ, ◌+◌, ◌^◌, ◌≤◌, List, [], ◌∷◌, arith, length, length-set, length-append, inl, inr, Option-cases,
}
use earth_rise_game.Prelude.Maps.{lookup}
use earth_rise_game.Net.Routing.{
  ConnectionTable, Slot, Call, opens, closes, empty_table, no_slot, take_slot, fill_slot,
  open_connection, close_connection, step, run,
}
use earth_rise_game.Net.Routing.Opening.{open_connection-IsTable}
use earth_rise_game.Net.Routing.Closing.{close_connection-IsTable}
use earth_rise_game.Net.Routing.Slots.{IsTable, empty_table-IsTable}

length-take_slot :
    (slots : List Slot) (free : List ℕ) (m : List (ℕ × ℕ))
    → length (take_slot (record { slots = slots; free = free; by_token = m })).1.slots
      ≤ length slots + 1
unfolding take_slot
length-take_slot slots [] m = omega (arith, length-append slots (no_slot ∷ []))
length-take_slot slots (i ∷ free) m = omega arith

slots-open_connection :
    (t : ConnectionTable) (token : ℕ)
    → length (open_connection token t).1.slots ≤ length t.slots + 1
unfolding open_connection fill_slot
slots-open_connection t token = elim (Option-cases (lookup token t.by_token)) [
  | inr (i, e) ↦ rw (e, open_connection) (omega arith)
  | inl e ↦ rw (e, open_connection, length-set) (length-take_slot t.slots t.free t.by_token)
]

slots-close_connection :
    (t : ConnectionTable) (token : ℕ) → length (close_connection token t).slots ≤ length t.slots
unfolding close_connection
slots-close_connection t token = elim (Option-cases (lookup token t.by_token)) [
  | inl e ↦ rw (e, close_connection) (omega arith)
  | inr (i, e) ↦ rw (e, close_connection, length-set) (omega arith)
]

run-IsTable_from :
    (cs : List Call) (t : ConnectionTable)
    → IsTable t
    → length t.slots + length cs ≤ 2 ^ 32
    → IsTable (run t cs)
unfolding run step
run-IsTable_from [] t v room = v
run-IsTable_from (opens token ∷ cs) t v room =
    run-IsTable_from cs (open_connection token t).1
      (open_connection-IsTable t token v (omega arith))
      (omega (arith, slots-open_connection t token))
run-IsTable_from (closes token ∷ cs) t v room =
    run-IsTable_from cs (close_connection token t) (close_connection-IsTable t token v)
      (omega (arith, slots-close_connection t token))

-- After any calls on an empty table, up to 2 ^ 32 of them, each entry of the map names an active
-- slot that holds its token, the free list names inactive slots, each once, and the entries and the
-- free slots together are as many as the slots.
pub run-IsTable : (cs : List Call) → length cs ≤ 2 ^ 32 → IsTable (run empty_table cs)
run-IsTable cs h = run-IsTable_from cs empty_table empty_table-IsTable (omega arith)
