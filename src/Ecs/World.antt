-- ===== src/Ecs/World.antt =====
-- NeuronCore/Ecs.h, `World`. The components of all types are values of one type `A`; `m_free_list` has
-- its back first.
pub mod Liveness
pub mod Lifecycle
pub mod Reuse
pub mod Iteration
pub mod Calls
use earth_rise_game.Prelude.{
  ℕ, zero, suc, ◌+◌, ◌-◌, ◌*◌, ◌/◌, ◌%◌, ◌^◌, bit_and, bit_or, Bool, true, false, not, ◌&&◌, ◌||◌,
  List, [], ◌∷◌, ◌++◌, Option, none, some, leb, ◌==◌, if◌then◌else◌, length, get_or, set, replicate,
}
use earth_rise_game.Ecs.{EntityHandle, index, generation, make, max_gen}
use earth_rise_game.Ecs.Storage.{ComponentStorage, new_storage, insert, remove, get}

abbrev pub max_component_types : ℕ
max_component_types = 64

-- `struct EntityRecord`.
pub record EntityRecord : Type 0 where
  pub generation : ℕ
  pub component_mask : ℕ
  pub alive : Bool

abbrev pub new_record : EntityRecord
new_record = record { generation = 0; component_mask = 0; alive = false }

-- `class World`.
pub record World {ℓ} (A : Type ℓ) : Type ℓ where
  pub records : List EntityRecord
  pub free_list : List ℕ
  pub storages : List (Option (ComponentStorage A))

-- `1 << cid` in a mask, and the test of it.
abbrev pub flag : ℕ → ℕ
flag cid = 2 ^ cid % 2 ^ 64

abbrev pub has_flag : ℕ → ℕ → Bool
has_flag mask cid = mask / 2 ^ cid % 2 == 1

module _ {ℓ} {A : Type ℓ} where
  -- `World::World`.
  abbrev pub new_world : World A
  new_world = record {
    records = new_record ∷ [];
    free_list = [];
    storages = replicate max_component_types none;
  }

  abbrev pub record_at : World A → ℕ → EntityRecord
  record_at w idx = get_or w.records idx new_record

  -- `RegisterComponent`.
  unfoldable pub register_component : ℕ → World A → World A
  register_component cid w = record w { storages = set w.storages cid (some new_storage) }

  -- The index that `CreateEntity` takes, and the world with its record there.
  unfoldable pub take_index : World A → ℕ × World A
  take_index w = elim w.free_list [
    | [] ↦ (length w.records % 2 ^ 32, record w { records = w.records ++ (new_record ∷ []) })
    | idx ∷ rest ↦ (idx, record w { free_list = rest })
  ]

  -- `CreateEntity`.
  unfoldable pub create_entity : World A → EntityHandle × World A
  create_entity w =
      let (idx, w) = take_index w in
      let rec = record_at w idx in
      (
        make idx rec.generation,
        record w { records = set w.records idx (record rec { alive = true; component_mask = 0 }) },
      )

  -- `IsAlive`.
  unfoldable pub is_alive : EntityHandle → World A → Bool
  is_alive e w =
      let idx = index e in
      if (idx == 0) || leb (length w.records) idx
      then false
      else (record_at w idx).alive && ((record_at w idx).generation == generation e)

  -- `m_storages[cid]->Remove(idx)`, of a storage that is registered.
  abbrev pub remove_from :
      ℕ → ℕ → List (Option (ComponentStorage A)) → List (Option (ComponentStorage A))
  remove_from cid idx storages = elim (get_or storages cid none) [
    | none ↦ storages
    | some st ↦ set storages cid (some (remove idx st).1)
  ]

  -- The loop of `DestroyEntity`, `n` component types from `cid` on.
  unfoldable pub remove_all :
      ℕ → ℕ → ℕ → ℕ → List (Option (ComponentStorage A)) → List (Option (ComponentStorage A))
  remove_all zero cid mask idx storages = storages
  remove_all (suc n) cid mask idx storages =
      remove_all n (suc cid) mask idx
        (if has_flag mask cid then remove_from cid idx storages else storages)

  -- `DestroyEntity`.
  unfoldable pub destroy_entity : EntityHandle → World A → World A
  destroy_entity e w =
      let rec = record_at w (index e) in
      let dead : EntityRecord = record {
        generation = bit_and (rec.generation + 1) max_gen;
        component_mask = 0;
        alive = false;
      } in
      if not (is_alive e w) then w else record {
        records = set w.records (index e) dead;
        free_list = index e ∷ w.free_list;
        storages = remove_all max_component_types 0 rec.component_mask (index e) w.storages;
      }

  -- `AddComponent`, of a type that is registered, to an entity that lives and has none.
  unfoldable pub add_component : A → ℕ → EntityHandle → World A → World A
  add_component fresh cid e w =
      let rec = record_at w (index e) in
      record w {
        records =
            set w.records (index e)
              (record rec { component_mask = bit_or rec.component_mask (flag cid) });
        storages = elim (get_or w.storages cid none) [
          | none ↦ w.storages
          | some st ↦ set w.storages cid (some (insert fresh (index e) st))
        ];
      }

  -- `RemoveComponent`, of an entity that lives and has one.
  unfoldable pub remove_component : ℕ → EntityHandle → World A → World A
  remove_component cid e w =
      let rec = record_at w (index e) in
      record w {
        records =
            set w.records (index e)
              (record rec { component_mask = bit_and rec.component_mask (2 ^ 64 - 1 - flag cid) });
        storages = remove_from cid (index e) w.storages;
      }

  -- `GetComponent`.
  unfoldable pub get_component : ℕ → EntityHandle → World A → Option A
  get_component cid e w =
      if not (is_alive e w)
      then none
      else elim (get_or w.storages cid none) [ none ↦ none | some st ↦ get (index e) st ]

  -- `HasComponent`.
  unfoldable pub has_component : ℕ → EntityHandle → World A → Bool
  has_component cid e w =
      if not (is_alive e w) then false else has_flag (record_at w (index e)).component_mask cid

  -- `EntityCount`.
  unfoldable pub entity_count : World A → ℕ
  entity_count w = (length w.records - 1 - length w.free_list) % 2 ^ 32

-- The indices that `ForEach` calls its function at, of the records from `idx` on, as long as the
-- function leaves the records as they are.
unfoldable pub visited : ℕ → List EntityRecord → ℕ → List ℕ
visited required [] idx = []
visited required (rec ∷ records) idx =
    let rest = visited required records (suc idx) in
    if not rec.alive
    then rest
    else if not (bit_and rec.component_mask required == required)
    then rest
    else idx ∷ rest

module _ {ℓ} {A : Type ℓ} where
  -- `ForEach`, of the component types of the mask `required`. It begins behind the null entity.
  unfoldable pub for_each : ℕ → World A → List ℕ
  for_each required w = elim w.records [ [] ↦ [] | first ∷ records ↦ visited required records 1 ]

  -- The loop of `ForEach` with the calls of its function, which may change the world. Each round
  -- tests the record as it then is.
  unfoldable pub for_each_loop : (ℕ → World A → World A) → ℕ → ℕ → ℕ → World A → World A
  for_each_loop fn required zero idx w = w
  for_each_loop fn required (suc rounds) idx w =
      let rec = record_at w idx in
      let after =
        if not rec.alive
        then w
        else if not (bit_and rec.component_mask required == required)
        then w
        else fn idx w in
      for_each_loop fn required rounds (suc idx) after

  -- `ForEach` with its function: the number of records is read once, before the loop.
  unfoldable pub for_each_calls : (ℕ → World A → World A) → ℕ → World A → World A
  for_each_calls fn required w = for_each_loop fn required (length w.records % 2 ^ 32 - 1) 1 w
