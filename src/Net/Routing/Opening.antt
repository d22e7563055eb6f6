-- ===== src/Net/Routing/Opening.antt =====
-- `Open` keeps the invariant of a connection table.
use native.Mathlib.Decide.{ℕ_discrete}
use earth_rise_game.Prelude.{
  ℕ, ◌+◌, ◌%◌, ◌^◌, ◌≤◌, ◌<◌, ◌≡◌, refl, ap, ◌∙◌, true, false, List, [], ◌∷◌, ◌++◌, none, some,
  arith, get_or, set, length, length-set, length-append, get_or-set_self, All, get_or-append_left,
  get_or-append_self, inl, inr, Option-cases,
}
use earth_rise_game.Prelude.Maps.{
  lookup, insert, KeysDistinct, lookup-insert, insert-KeysDistinct, length-insert_new,
}
use earth_rise_game.Net.Routing.{
  ConnectionTable, Slot, no_slot, slot_at, take_slot, fill_slot, open_connection,
}
use earth_rise_game.Net.Routing.Slots.{
  IsFree, Absent, AllDistinct, IsTable, Holds, set-IsFree, set-Holds,
}

-- A table with one slot taken off the free side and not yet entered in the map.
record IsTaken (t : ConnectionTable) (i : ℕ) : Type 0 where
  keys : KeysDistinct t.by_token
  entry :
      (token j : ℕ)
      → lookup token t.by_token ≡ some j
      → (j < length t.slots) × ((slot_at t j).active ≡ true) × ((slot_at t j).token ≡ token)
  free_slots : All (IsFree t.slots) t.free
  free_once : AllDistinct t.free
  apart : Absent i t.free
  balance : length t.by_token + length t.free + 1 ≡ length t.slots
  small : length t.slots ≤ 2 ^ 32
  inside : i < length t.slots
  idle : (slot_at t i).active ≡ false

new_slot-IsTaken :
    (slots : List Slot) (m : List (ℕ × ℕ))
    → IsTable (record { slots = slots; free = []; by_token = m })
    → length slots < 2 ^ 32
    → IsTaken (record { slots = slots ++ (no_slot ∷ []); free = []; by_token = m }) (length slots)
new_slot-IsTaken slots m v room = record {
  keys = v.keys;
  entry = λ token j e.
      let (inside, active, holds) = v.entry token j e in
      let same : get_or (slots ++ (no_slot ∷ [])) j no_slot ≡ get_or slots j no_slot =
        get_or-append_left slots (no_slot ∷ []) j no_slot inside in
      (
        omega (arith, length-append slots (no_slot ∷ []), inside),
        ap (λ (x : Slot). x.active) same ∙ active,
        ap (λ (x : Slot). x.token) same ∙ holds,
      );
  free_slots = tt;
  free_once = tt;
  apart = tt;
  balance = omega (arith, length-append slots (no_slot ∷ []), v.balance);
  small = omega (arith, length-append slots (no_slot ∷ []));
  inside = omega (arith, length-append slots (no_slot ∷ []));
  idle = ap (λ (x : Slot). x.active) (get_or-append_self slots no_slot no_slot);
}

take_slot-IsTaken :
    (slots : List Slot) (free : List ℕ) (m : List (ℕ × ℕ))
    → let t : ConnectionTable = record { slots = slots; free = free; by_token = m } in
      IsTable t → length slots < 2 ^ 32 → IsTaken (take_slot t).1 (take_slot t).0
unfolding take_slot
take_slot-IsTaken slots (i ∷ free) m v room = record {
  keys = v.keys;
  entry = v.entry;
  free_slots = v.free_slots.1;
  free_once = v.free_once.1;
  apart = v.free_once.0;
  balance = omega (arith, v.balance);
  small = v.small;
  inside = v.free_slots.0.0;
  idle = v.free_slots.0.1;
}
take_slot-IsTaken slots [] m v room =
    let whole : length slots % 2 ^ 32 ≡ length slots = omega arith in
    rw whole (new_slot-IsTaken slots m v room)

fill-Holds :
    (slots : List Slot) (m : List (ℕ × ℕ)) (i : ℕ) (new : Slot) (other j : ℕ)
    → ((token j : ℕ) → lookup token m ≡ some j → Holds slots token j)
    → i < length slots
    → (get_or slots i no_slot).active ≡ false
    → new.active ≡ true
    → lookup other (insert new.token i m) ≡ some j
    → Holds (set slots i new) other j
fill-Holds slots m i new other j entry inside idle on e = elim (ℕ_discrete new.token other) [
  | yes same ↦
      let j_is : i ≡ j = ground (arith, lookup-insert other new.token i m) in
      let filled : get_or (set slots i new) j no_slot ≡ new =
        rw (← j_is) (get_or-set_self slots i new no_slot inside) in
      (
        omega (arith, length-set slots i new, j_is),
        ap (λ (x : Slot). x.active) filled ∙ on,
        ap (λ (x : Slot). x.token) filled ∙ same,
      )
  | no other_token ↦
      let old : lookup other m ≡ some j = ground (arith, lookup-insert other new.token i m) in
      let held : Holds slots other j = entry other j old in
      set-Holds slots i new other j
        (λ i_is. cc (ap (λ t. (get_or slots t no_slot).active) i_is, held.1)) held
]

fill_slot-IsTable :
    (t : ConnectionTable) (i token : ℕ)
    → IsTaken t i
    → lookup token t.by_token ≡ none
    → IsTable (fill_slot i t token)
unfolding fill_slot
fill_slot-IsTable t i token v absent =
    let new : Slot = record {
      token = token;
      generation = (slot_at t i).generation;
      active = true;
    } in
    record {
      keys = insert-KeysDistinct token i t.by_token v.keys;
      entry =
          λ other j e. fill-Holds t.slots t.by_token i new other j v.entry v.inside v.idle refl e;
      free_slots = set-IsFree t.slots i new t.free v.apart v.free_slots;
      free_once = v.free_once;
      balance =
          omega (
            arith,
            length-insert_new token i t.by_token absent,
            length-set t.slots i new,
            v.balance,
          );
      small = omega (arith, length-set t.slots i new, v.small);
    }

by_token-take_slot :
    (t : ConnectionTable) (token : ℕ)
    → lookup token t.by_token ≡ none
    → lookup token (take_slot t).1.by_token ≡ none
unfolding take_slot
by_token-take_slot t token e = keeps t.slots t.free t.by_token ∙ e
  where
    keeps :
        (slots : List Slot) (free : List ℕ) (m : List (ℕ × ℕ))
        → lookup token (take_slot (record { slots = slots; free = free; by_token = m })).1.by_token
          ≡ lookup token m
    keeps slots [] m = refl
    keeps slots (i ∷ free) m = refl

pub open_connection-IsTable :
    (t : ConnectionTable) (token : ℕ)
    → IsTable t
    → length t.slots < 2 ^ 32
    → IsTable (open_connection token t).1
unfolding open_connection
open_connection-IsTable t token v room = elim (Option-cases (lookup token t.by_token)) [
  | inr (i, e) ↦ rw (e, open_connection) v
  | inl e ↦
      rw (e, open_connection)
        (fill_slot-IsTable (take_slot t).1 (take_slot t).0 token
          (take_slot-IsTaken t.slots t.free t.by_token v room) (by_token-take_slot t token e))
]
