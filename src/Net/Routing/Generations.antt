-- ===== src/Net/Routing/Generations.antt =====
-- How the calls of a connection table change the generations of its slots.
use native.Mathlib.Decide.{ℕ_discrete, dec_lt}
use earth_rise_game.Prelude.{
  ℕ, zero, suc, ◌+◌, ◌%◌, ◌^◌, ◌≤◌, ◌≡◌, refl, ap, ◌∙◌, true, false, List, [], ◌∷◌, ◌++◌, arith,
  get_or, set, length, get_or-set_self, get_or-set_ne, inl, inr, ◌⊎◌, Option-cases,
}
use earth_rise_game.Prelude.Maps.{lookup}
use earth_rise_game.Net.Routing.{
  ConnectionTable, Slot, no_slot, slot_at, take_slot, fill_slot, open_connection, close_connection,
}

abbrev pub generation_at : List Slot → ℕ → ℕ
generation_at slots j = (get_or slots j no_slot).generation

pub generation-set :
    (slots : List Slot) (i j : ℕ) (s : Slot)
    → (generation_at (set slots i s) j ≡ generation_at slots j)
      ⊎ ((i ≡ j) × (generation_at (set slots i s) j ≡ s.generation))
generation-set slots i j s = elim (ℕ_discrete i j) [
  | no ne ↦ inl (ap (λ (x : Slot). x.generation) (get_or-set_ne slots i j s no_slot ne))
  | yes e ↦ elim (dec_lt i (length slots)) [
    | yes inside ↦
        inr
          (e, rw (← e) (ap (λ (x : Slot). x.generation) (get_or-set_self slots i s no_slot inside)))
    | no outside ↦ inl (rw (set_outside slots i s (omega arith)) refl)
  ]
]
  where
    set_outside : (xs : List Slot) (k : ℕ) (x : Slot) → length xs ≤ k → set xs k x ≡ xs
    set_outside [] k x h = refl
    set_outside (y ∷ xs) zero x h = absurd (omega arith)
    set_outside (y ∷ xs) (suc k) x h = ap (λ t. y ∷ t) (set_outside xs k x (omega arith))

-- A new slot starts at the generation that a missing one has.
generation-append :
    (slots : List Slot) (j : ℕ) → generation_at (slots ++ (no_slot ∷ [])) j ≡ generation_at slots j
generation-append [] zero = refl
generation-append [] (suc j) = refl
generation-append (s ∷ slots) zero = refl
generation-append (s ∷ slots) (suc j) = generation-append slots j

pub generation-take_slot :
    (slots : List Slot) (free : List ℕ) (m : List (ℕ × ℕ)) (j : ℕ)
    → generation_at (take_slot (record { slots = slots; free = free; by_token = m })).1.slots j
      ≡ generation_at slots j
unfolding take_slot
generation-take_slot slots [] m j = generation-append slots j
generation-take_slot slots (i ∷ free) m j = refl

pub generation-fill_slot :
    (t : ConnectionTable) (i token j : ℕ)
    → generation_at (fill_slot i t token).slots j ≡ generation_at t.slots j
unfolding fill_slot
generation-fill_slot t i token j =
    let new : Slot = record {
      token = token;
      generation = (slot_at t i).generation;
      active = true;
    } in
    elim (generation-set t.slots i j new) [
      | inl same ↦ same
      | inr (e, filled) ↦ filled ∙ ap (generation_at t.slots) e
    ]

-- `Open` changes no generation.
pub generation-open_connection :
    (t : ConnectionTable) (token j : ℕ)
    → generation_at (open_connection token t).1.slots j ≡ generation_at t.slots j
unfolding open_connection
generation-open_connection t token j = elim (Option-cases (lookup token t.by_token)) [
  | inr (i, e) ↦ rw (e, open_connection) refl
  | inl e ↦
      rw (e, open_connection)
        (generation-fill_slot (take_slot t).1 (take_slot t).0 token j
          ∙ generation-take_slot t.slots t.free t.by_token j)
]

-- `Close` changes the generation of one slot at most, to the next.
pub generation-close_connection :
    (t : ConnectionTable) (token j : ℕ)
    → (generation_at (close_connection token t).slots j ≡ generation_at t.slots j)
      ⊎ (generation_at (close_connection token t).slots j ≡ (generation_at t.slots j + 1) % 2 ^ 32)
unfolding close_connection
generation-close_connection t token j = elim (Option-cases (lookup token t.by_token)) [
  | inl e ↦ inl (rw (e, close_connection) refl)
  | inr (i, e) ↦
      let gone : Slot = record {
        token = 0;
        generation = ((slot_at t i).generation + 1) % 2 ^ 32;
        active = false;
      } in
      elim (generation-set t.slots i j gone) [
        | inl same ↦ inl (rw (e, close_connection) same)
        | inr (i_is, next) ↦ inr (
            rw (e, close_connection) (next ∙ ap (λ k. (generation_at t.slots k + 1) % 2 ^ 32) i_is))
      ]
]
