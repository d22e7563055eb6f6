-- ===== src/Ecs/Handles.antt =====
-- A handle is its index and its generation.
use native.Mathlib.Nat.{mod-eq_of_lt}
use earth_rise_game.Prelude.{ℕ, ◌+◌, ◌*◌, ◌/◌, ◌%◌, ◌^◌, ◌<◌, ◌≡◌, ap, ◌∙◌, bit_or, arith}
use earth_rise_game.Prelude.Bits.{bit_or_disjoint}
use earth_rise_game.Prelude.Mask.{bit_and_mask}
use earth_rise_game.Ecs.{EntityHandle, index, generation, make}

pub index_lem : (h : EntityHandle) → index h ≡ h.value % 2 ^ 20
unfolding index
index_lem h = bit_and_mask 20 h.value

pub generation_lem : (h : EntityHandle) → generation h ≡ h.value / 2 ^ 20
unfolding generation
generation_lem h = omega arith

pub make_lem :
    (idx gen : ℕ) → idx < 2 ^ 20 → gen < 2 ^ 12 → (make idx gen).value ≡ gen * 2 ^ 20 + idx
unfolding make
make_lem idx gen i g =
    ap (λ (n : ℕ). bit_or n idx) (mod-eq_of_lt (omega arith)) ∙ bit_or_disjoint 20 gen idx i

pub index-make : (idx gen : ℕ) → idx < 2 ^ 20 → gen < 2 ^ 12 → index (make idx gen) ≡ idx
index-make idx gen i g = omega (arith, index_lem (make idx gen), make_lem idx gen i g)

pub generation-make : (idx gen : ℕ) → idx < 2 ^ 20 → gen < 2 ^ 12 → generation (make idx gen) ≡ gen
generation-make idx gen i g = omega (arith, generation_lem (make idx gen), make_lem idx gen i g)
