-- ===== src/Net/Routing/Closing.antt =====
-- `Close` keeps the invariant of a connection table.
use earth_rise_game.Prelude.{
  ℕ, ◌+◌, ◌%◌, ◌^◌, ◌≡◌, ◌≢◌, ap, ◌∙◌, sym, false, List, some, arith, get_or, set, length-set,
  get_or-set_self, inl, inr, Option-cases,
}
use earth_rise_game.Prelude.Maps.{lookup, erase, lookup-erase, erase-KeysDistinct, length-erase}
use earth_rise_game.Net.Routing.{ConnectionTable, Slot, no_slot, slot_at, close_connection}
use earth_rise_game.Net.Routing.Slots.{Absent, IsTable, Holds, set-IsFree, active-Absent, set-Holds}

-- The write of `Close` to slot `i`, seen from the entries of other tokens.
close-Holds :
    (slots : List Slot) (m : List (ℕ × ℕ)) (i token : ℕ) (gone : Slot) (other j : ℕ)
    → ((token j : ℕ) → lookup token m ≡ some j → Holds slots token j)
    → lookup token m ≡ some i
    → lookup other (erase token m) ≡ some j
    → Holds (set slots i gone) other j
close-Holds slots m i token gone other j entry e e' =
    let old : lookup other m ≡ some j = ground (arith, lookup-erase other token m) in
    let apart : token ≢ other = ground (arith, lookup-erase other token m) in
    let held : Holds slots other j = entry other j old in
    let mine : Holds slots token i = entry token i e in
    set-Holds slots i gone other j
      (λ i_is. apart (sym mine.2 ∙ ap (λ t. (get_or slots t no_slot).token) i_is ∙ held.2)) held

pub close_connection-IsTable :
    (t : ConnectionTable) (token : ℕ) → IsTable t → IsTable (close_connection token t)
unfolding close_connection
close_connection-IsTable t token v = elim (Option-cases (lookup token t.by_token)) [
  | inl e ↦ rw (e, close_connection) v
  | inr (i, e) ↦
      let gone : Slot = record {
        token = 0;
        generation = ((slot_at t i).generation + 1) % 2 ^ 32;
        active = false;
      } in
      let mine : Holds t.slots token i = v.entry token i e in
      let apart : Absent i t.free = active-Absent t.slots i t.free mine.1 v.free_slots in
      let emptied : get_or (set t.slots i gone) i no_slot ≡ gone =
        get_or-set_self t.slots i gone no_slot mine.0 in
      rw (e, close_connection)
        (record {
          keys = erase-KeysDistinct token t.by_token v.keys;
          entry = λ other j e'. close-Holds t.slots t.by_token i token gone other j v.entry e e';
          free_slots = (
            (omega (arith, length-set t.slots i gone, mine.0), ap (λ (x : Slot). x.active) emptied),
            set-IsFree t.slots i gone t.free apart v.free_slots,
          );
          free_once = (apart, v.free_once);
          balance = omega (
            arith,
            length-erase token i t.by_token v.keys e,
            length-set t.slots i gone,
            v.balance,
          );
          small = omega (arith, length-set t.slots i gone, v.small);
        })
]
