-- ===== src/Economy/Keys/Events.antt =====
-- The outbox records of events of one kind.
use earth_rise_game.Prelude.{ℕ, zero, suc, ◌+◌, ◌^◌, ◌<◌, ◌≡◌, refl, sym, ◌∙◌, arith}
use earth_rise_game.Prelude.Int.{ℤ}
use earth_rise_game.Economy.Keys.{outbox_idem_key, map_econ_event}
use earth_rise_game.Economy.Keys.Unique.{keys_differ}

-- The record of an event of a known kind has the key of its domain, one more than its code.
map_econ_event-key :
    (type_code a b : ℕ) (amount : ℤ) (tick : ℕ)
    → type_code < 4
    → (map_econ_event type_code a b amount tick).idem_key ≡ outbox_idem_key (type_code + 1) a tick
unfolding map_econ_event
map_econ_event-key zero a b amount tick h = refl
map_econ_event-key (suc zero) a b amount tick h = refl
map_econ_event-key (suc (suc zero)) a b amount tick h = refl
map_econ_event-key (suc (suc (suc zero))) a b amount tick h = refl
map_econ_event-key (suc (suc (suc (suc n)))) a b amount tick h = absurd (omega arith)

-- Two events of one known kind, with 32-bit net ids and at ticks below 2 ^ 21, have outbox records with the
-- same key only if their net ids and their ticks are the same, whatever their counterparties and amounts.
pub events_differ :
    (type_code a b : ℕ) (amount : ℤ) (tick a' b' : ℕ) (amount' : ℤ) (tick' : ℕ)
    → type_code < 4
    → a < 2 ^ 32
    → a' < 2 ^ 32
    → tick < 2 ^ 21
    → tick' < 2 ^ 21
    → (map_econ_event type_code a b amount tick).idem_key
      ≡ (map_econ_event type_code a' b' amount' tick').idem_key
    → (a ≡ a') × (tick ≡ tick')
events_differ type_code a b amount tick a' b' amount' tick' known ha ha' ht ht' e =
    keys_differ (type_code + 1) a tick a' tick' ha ha' ht ht' (
      sym (map_econ_event-key type_code a b amount tick known)
      ∙ e
      ∙ map_econ_event-key type_code a' b' amount' tick' known)
