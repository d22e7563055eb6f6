-- ===== src/Net/Routing/Lookup.antt =====
-- What `Find` and `Validate` answer after `Open` and after `Close`.
use native.Mathlib.Decide.{ℕ_discrete}
use earth_rise_game.Prelude.{
  ℕ, ◌+◌, ◌%◌, ◌^◌, ◌<◌, ◌≡◌, ◌≢◌, refl, ap, ◌∙◌, sym, true, false, List, [], ◌∷◌, none, some,
  arith, ◌==◌, if◌then◌else◌, length, get_or-set_ne, inl, inr, Option-cases,
}
use earth_rise_game.Prelude.Maps.{lookup, lookup-insert, lookup-erase}
use earth_rise_game.Net.Routing.{
  ConnectionTable, ConnHandle, Slot, no_slot, no_handle, slot_at, handle_for, take_slot, fill_slot,
  open_connection, close_connection, find, validate,
}
use earth_rise_game.Net.Routing.Slots.{IsTable}
use earth_rise_game.Net.Routing.Opening.{open_connection-IsTable}
use earth_rise_game.Net.Routing.Handles.{find_unknown, find_known}
use earth_rise_game.Net.Routing.Generations.{generation_at, generation-open_connection}

handle_for-generation :
    (t u : ConnectionTable) (j : ℕ)
    → generation_at t.slots j ≡ generation_at u.slots j
    → handle_for t j ≡ handle_for u j
unfolding handle_for
handle_for-generation t u j e = ap (λ g. record { index = j; generation = g; valid = true }) e

validate_known :
    (t : ConnectionTable) (token i : ℕ)
    → IsTable t
    → lookup token t.by_token ≡ some i
    → validate (handle_for t i) t ≡ true
unfolding validate handle_for
validate_known t token i v e = ground (arith, v.entry token i e)

find-lookup :
    (t u : ConnectionTable) (token : ℕ)
    → lookup token t.by_token ≡ lookup token u.by_token
    → ((j : ℕ)
        → lookup token u.by_token ≡ some j
        → generation_at t.slots j ≡ generation_at u.slots j)
    → find token t ≡ find token u
find-lookup t u token same gen = elim (Option-cases (lookup token u.by_token)) [
  | inl e ↦ find_unknown token t (same ∙ e) ∙ sym (find_unknown token u e)
  | inr (j, e) ↦
      find_known token t j (same ∙ e)
      ∙ handle_for-generation t u j (gen j e)
      ∙ sym (find_known token u j e)
]

by_token-take_slot :
    (slots : List Slot) (free : List ℕ) (m : List (ℕ × ℕ))
    → (take_slot (record { slots = slots; free = free; by_token = m })).1.by_token ≡ m
unfolding take_slot
by_token-take_slot slots [] m = refl
by_token-take_slot slots (i ∷ free) m = refl

-- The map after `Open`: the token has the slot of the handle, every other token what it had.
lookup-open_connection :
    (t : ConnectionTable) (token other : ℕ)
    → lookup other (open_connection token t).1.by_token
      ≡ (if token == other then some (open_connection token t).0.index else lookup other t.by_token)
unfolding open_connection fill_slot handle_for
lookup-open_connection t token other = elim (Option-cases (lookup token t.by_token)) [
  | inr (i, e) ↦
      rw (e, open_connection)
        (elim (ℕ_discrete token other) [
          | yes same ↦ ground (arith, ap (λ k. lookup k t.by_token) same)
          | no ne ↦ ground arith
        ])
  | inl e ↦
      rw (e, open_connection, by_token-take_slot t.slots t.free t.by_token)
        (lookup-insert other token (take_slot t).0 t.by_token)
]

handle-open_connection :
    (t : ConnectionTable) (token : ℕ)
    → (open_connection token t).0
      ≡ handle_for (open_connection token t).1 (open_connection token t).0.index
unfolding open_connection handle_for
handle-open_connection t token = elim (Option-cases (lookup token t.by_token)) [
  | inr (i, e) ↦ rw (e, open_connection) refl
  | inl e ↦ rw (e, open_connection) refl
]

-- After `Open` on a well-formed table of fewer than 2 ^ 32 slots, `Find` gives the handle it returned,
-- the handle validates, and every other token has the handle that it had.
pub find-open_connection :
    (t : ConnectionTable) (token : ℕ)
    → IsTable t
    → length t.slots < 2 ^ 32
    → let (h, t') = open_connection token t in
      (find token t' ≡ h)
      × (validate h t' ≡ true)
      × ((other : ℕ) → token ≢ other → find other t' ≡ find other t)
find-open_connection t token v room =
    let t' : ConnectionTable = (open_connection token t).1 in
    let h : ConnHandle = (open_connection token t).0 in
    let entered : lookup token t'.by_token ≡ some h.index =
      ground (arith, lookup-open_connection t token token) in
    let mine : h ≡ handle_for t' h.index = handle-open_connection t token in
    (
      find_known token t' h.index entered ∙ sym mine,
      ap (λ x. validate x t') mine
          ∙ validate_known t' token h.index (open_connection-IsTable t token v room) entered,
      λ other ne.
          find-lookup t' t other (ground (arith, lookup-open_connection t token other))
            (λ j e. generation-open_connection t token j),
    )

-- `Close` leaves the generation of another token's slot alone.
close_apart :
    (t : ConnectionTable) (token i other j : ℕ)
    → IsTable t
    → lookup token t.by_token ≡ some i
    → lookup other t.by_token ≡ some j
    → token ≢ other
    → generation_at (close_connection token t).slots j ≡ generation_at t.slots j
unfolding close_connection
close_apart t token i other j v e e' ne =
    let gone : Slot = record {
      token = 0;
      generation = ((slot_at t i).generation + 1) % 2 ^ 32;
      active = false;
    } in
    let apart : i ≢ j = λ same.
      ne
        (sym (v.entry token i e).2 ∙ ap (λ k. (slot_at t k).token) same ∙ (v.entry other j e').2) in
    rw (e, close_connection)
      (ap (λ (x : Slot). x.generation) (get_or-set_ne t.slots i j gone no_slot apart))

-- After `Close` on a well-formed table the token is unknown, and every other token has the handle
-- that it had.
pub find-close_connection :
    (t : ConnectionTable) (token : ℕ)
    → IsTable t
    → (find token (close_connection token t) ≡ no_handle)
      × ((other : ℕ) → token ≢ other → find other (close_connection token t) ≡ find other t)
unfolding close_connection
find-close_connection t token v = elim (Option-cases (lookup token t.by_token)) [
  | inl e ↦ rw (e, close_connection) (find_unknown token t e, λ other ne. refl)
  | inr (i, e) ↦
      let t' : ConnectionTable = close_connection token t in
      let erased : (other : ℕ)
          → lookup other t'.by_token ≡ (if token == other then none else lookup other t.by_token) =
        λ other. rw (e, close_connection) (lookup-erase other token t.by_token) in
      (
        find_unknown token t' (ground (arith, erased token)),
        λ other ne.
            find-lookup t' t other (ground (arith, erased other))
              (λ j e'. close_apart t token i other j v e e' ne),
      )
]
