-- ===== src/Ecs/World/Reuse.antt =====
-- An index that is used again gets another generation.
use earth_rise_game.Prelude.{
  ℕ, ◌+◌, ◌%◌, ◌^◌, ◌≡◌, sym, ◌∙◌, bit_and, true, false, arith, get_or-set_self,
}
use earth_rise_game.Prelude.Mask.{bit_and_mask}
use earth_rise_game.Ecs.{EntityHandle, same_handle, max_gen}
use earth_rise_game.Ecs.Handles.{index_lem, make_lem}
use earth_rise_game.Ecs.World.{
  World, EntityRecord, new_record, record_at, take_index, create_entity, is_alive, destroy_entity,
}
use earth_rise_game.Ecs.World.Liveness.{lives, lives_low, is_alive_lem}
use earth_rise_game.Ecs.World.Lifecycle.{IsWorld, HasRoom, create_entity_lem, destroy_entity_lem}

module _ {ℓ} {A : Type ℓ} where
  -- The handle that CreateEntity makes of the index of a destroyed entity is another one.
  renewed :
      (e : EntityHandle) (w : World A)
      → IsWorld w
      → is_alive e w ≡ true
      → same_handle e (create_entity (destroy_entity e w)).0 ≡ false
  unfolding destroy_entity create_entity take_index
  renewed e w v live =
      let alive : lives e w.records ≡ true = sym (is_alive_lem e w) ∙ live in
      let (pos, low) = lives_low e w.records alive in
      let idx : ℕ = e.value % 2 ^ 20 in
      let old : ℕ = (record_at w idx).generation in
      let dead : EntityRecord = record {
        generation = bit_and (old + 1) max_gen;
        component_mask = 0;
        alive = false;
      } in
      let new = get_or-set_self w.records idx dead new_record low in
      let next : bit_and (old + 1) max_gen ≡ (old + 1) % 2 ^ 12 = bit_and_mask 12 (old + 1) in
      let value = make_lem idx (bit_and (old + 1) max_gen) (omega arith) (rw next (omega arith)) in
      rw (live, index_lem e, new, value) (ground (arith, next, alive, v.gens idx))

  room : (e : EntityHandle) (w : World A) → is_alive e w ≡ true → HasRoom (destroy_entity e w)
  unfolding destroy_entity
  room e w live = rw live tt

  -- A handle that was destroyed stays dead when the next entity is created, though that takes its index.
  pub stale_lem :
      (e : EntityHandle) (w : World A)
      → IsWorld w
      → is_alive e w ≡ true
      → is_alive e (create_entity (destroy_entity e w)).1 ≡ false
  stale_lem e w v live =
      let (u, gone) = destroy_entity_lem e w v in
      let (u', unborn, some_handle, now) =
        create_entity_lem (destroy_entity e w) u (room e w live) in
      now e ∙ rw (renewed e w v live, gone e) (ground arith)
