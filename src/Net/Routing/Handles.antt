-- ===== src/Net/Routing/Handles.antt =====
-- What a connection handle is good for: from `Open` until `Close`, and never again.
use earth_rise_game.Prelude.{
  ℕ, ◌+◌, ◌-◌, ◌%◌, ◌^◌, ◌≤◌, ◌<◌, ◌≡◌, refl, ap, ◌∙◌, false, List, [], ◌∷◌, none, some, arith,
  get_or, set, length, get_or-set_self, inl, inr, Option-cases,
}
use earth_rise_game.Prelude.Maps.{lookup}
use earth_rise_game.Net.Routing.{
  ConnectionTable, ConnHandle, Slot, Call, opens, closes, no_slot, no_handle, slot_at, handle_for,
  close_connection, find, validate, step, run,
}
use earth_rise_game.Net.Routing.Slots.{IsTable}
use earth_rise_game.Net.Routing.Generations.{
  generation_at, generation-open_connection, generation-close_connection,
}

-- The slot of a handle is `n` generations further on, for some `n` from 1 to `most`.
abbrev Outlived : ConnHandle → ℕ → ConnectionTable → Type 0
Outlived h most t =
    (n : ℕ) × (1 ≤ n) × (n ≤ most) × (generation_at t.slots h.index ≡ (h.generation + n) % 2 ^ 32)

step-Outlived :
    (h : ConnHandle) (most : ℕ) (t : ConnectionTable) (c : Call)
    → Outlived h most t
    → Outlived h (most + 1) (step t c)
unfolding step
step-Outlived h most t (opens token) (n, some_n, few, e) =
    (n, some_n, omega arith, generation-open_connection t token h.index ∙ e)
step-Outlived h most t (closes token) (n, some_n, few, e) =
    elim (generation-close_connection t token h.index) [
      | inl same ↦ (n, some_n, omega arith, same ∙ e)
      | inr next ↦ (n + 1, omega arith, omega arith, omega (arith, next, e))
    ]

run-Outlived :
    (cs : List Call) (h : ConnHandle) (most : ℕ) (t : ConnectionTable)
    → Outlived h most t
    → Outlived h (most + length cs) (run t cs)
unfolding run
run-Outlived [] h most t (n, a, b, e) = (n, a, omega arith, e)
run-Outlived (c ∷ cs) h most t o =
    let (n, a, b, e) = run-Outlived cs h (most + 1) (step t c) (step-Outlived h most t c o) in
    (n, a, omega arith, e)

Outlived-validate :
    (h : ConnHandle) (most : ℕ) (t : ConnectionTable)
    → most < 2 ^ 32
    → Outlived h most t
    → validate h t ≡ false
unfolding validate
Outlived-validate h most t few (n, some_n, n_few, e) = ground arith

pub find_unknown :
    (token : ℕ) (t : ConnectionTable) → lookup token t.by_token ≡ none → find token t ≡ no_handle
unfolding find
find_unknown token t e = rw (e, find) refl

pub find_known :
    (token : ℕ) (t : ConnectionTable) (i : ℕ)
    → lookup token t.by_token ≡ some i
    → find token t ≡ handle_for t i
unfolding find
find_known token t i e = rw (e, find) refl

validate-no_handle : (t : ConnectionTable) → validate no_handle t ≡ false
unfolding validate
validate-no_handle t = refl

close-Outlived :
    (t : ConnectionTable) (token i : ℕ)
    → IsTable t
    → lookup token t.by_token ≡ some i
    → Outlived (handle_for t i) 1 (close_connection token t)
unfolding close_connection handle_for
close-Outlived t token i v e =
    let gone : Slot = record {
      token = 0;
      generation = ((slot_at t i).generation + 1) % 2 ^ 32;
      active = false;
    } in
    let emptied : get_or (set t.slots i gone) i no_slot ≡ gone =
      get_or-set_self t.slots i gone no_slot (v.entry token i e).0 in
    (
      1,
      omega arith,
      omega arith,
      rw (e, close_connection) (ap (λ (x : Slot). x.generation) emptied),
    )

-- The handle that `Find` gives for a token is refused once the token is closed, whatever calls come
-- after, fewer than 2 ^ 32 - 1 of them (then the generation may have come round).
pub closed_handle_stale :
    (t : ConnectionTable) (token : ℕ) (cs : List Call)
    → IsTable t
    → length cs < 2 ^ 32 - 1
    → validate (find token t) (run (close_connection token t) cs) ≡ false
closed_handle_stale t token cs v few = elim (Option-cases (lookup token t.by_token)) [
  | inl e ↦ rw (find_unknown token t e) (validate-no_handle _)
  | inr (i, e) ↦ rw (find_known token t i e) (
      Outlived-validate (handle_for t i) (1 + length cs) _ (omega arith) (
        run-Outlived cs (handle_for t i) 1 (close_connection token t)
          (close-Outlived t token i v e)))
]
