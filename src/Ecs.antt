-- ===== src/Ecs.antt =====
-- NeuronCore/Ecs.h: the handles of entities.
pub mod Storage
pub mod World
pub mod Handles
mod Examples
use earth_rise_game.Prelude.{ℕ, ◌*◌, ◌-◌, ◌/◌, ◌%◌, ◌^◌, bit_and, bit_or, Bool, ◌==◌}

-- `struct EntityHandle`.
pub record EntityHandle : Type 0 where
  pub value : ℕ

abbrev pub index_bits : ℕ
index_bits = 20

abbrev pub gen_bits : ℕ
gen_bits = 12

abbrev pub index_mask : ℕ
index_mask = 2 ^ index_bits - 1

abbrev pub max_index : ℕ
max_index = index_mask

abbrev pub max_gen : ℕ
max_gen = 2 ^ gen_bits - 1

-- `EntityHandle::Index`.
unfoldable pub index : EntityHandle → ℕ
index h = bit_and h.value index_mask

-- `EntityHandle::Generation`.
unfoldable pub generation : EntityHandle → ℕ
generation h = h.value / 2 ^ index_bits

-- `EntityHandle::IsNull`.
unfoldable pub is_null : EntityHandle → Bool
is_null h = h.value == 0

-- `operator==`.
abbrev pub same_handle : EntityHandle → EntityHandle → Bool
same_handle h h' = h.value == h'.value

-- `EntityHandle::Make`.
unfoldable pub make : ℕ → ℕ → EntityHandle
make idx gen = record { value = bit_or (gen * 2 ^ index_bits % 2 ^ 32) idx }
