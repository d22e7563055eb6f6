-- ===== src/Ecs/Storage.antt =====
-- NeuronCore/Ecs.h, `ComponentStorage`: a sparse set. `fresh` is the component that `T` constructs by
-- default, and `UINT32_MAX` is `absent`.
pub mod Slots
pub mod Removal
pub mod View
use earth_rise_game.Prelude.Vectors.{pop_back, move_element}
use earth_rise_game.Prelude.{
  ℕ, suc, ◌+◌, ◌-◌, ◌%◌, ◌^◌, Bool, ◌||◌, List, [], ◌∷◌, ◌++◌, Option, none, some, leb, ◌==◌,
  if◌then◌else◌, length, get_elem?, get_or, set, replicate,
}

abbrev pub absent : ℕ
absent = 2 ^ 32 - 1

-- `struct ComponentStorage`.
pub record ComponentStorage {ℓ} (A : Type ℓ) : Type ℓ where
  pub sparse : List ℕ
  pub dense : List A
  pub dense_to_entity : List ℕ

module _ {ℓ} {A : Type ℓ} where
  abbrev pub new_storage : ComponentStorage A
  new_storage = record { sparse = []; dense = []; dense_to_entity = [] }

-- `EnsureSparse`.
unfoldable pub ensure_sparse : ℕ → List ℕ → List ℕ
ensure_sparse entity sparse =
    if leb (length sparse) entity
    then sparse ++ replicate (entity + 1 - length sparse) absent
    else sparse

module _ {ℓ} {A : Type ℓ} where
  -- `Insert`, of an entity that has no component.
  unfoldable pub insert : A → ℕ → ComponentStorage A → ComponentStorage A
  insert fresh entity st = record {
    sparse = set (ensure_sparse entity st.sparse) entity (length st.dense % 2 ^ 32);
    dense = st.dense ++ (fresh ∷ []);
    dense_to_entity = st.dense_to_entity ++ (entity ∷ []);
  }

  -- `Remove`, of an entity that has a component: the entity that was moved, and the storage.
  unfoldable pub remove : ℕ → ComponentStorage A → ℕ × ComponentStorage A
  remove entity st =
      let di = get_or st.sparse entity absent in
      let last = (length st.dense % 2 ^ 32 + 2 ^ 32 - 1) % 2 ^ 32 in
      let moved = get_or st.dense_to_entity last absent in
      let same = di == last in
      let sparse = if same then st.sparse else set st.sparse moved di in
      let dense = if same then st.dense else move_element last di st.dense in
      let dense_to_entity = if same then st.dense_to_entity else set st.dense_to_entity di moved in
      (
        if same then absent else moved,
        record {
          sparse = set sparse entity absent;
          dense = pop_back dense;
          dense_to_entity = pop_back dense_to_entity;
        },
      )

  -- `Get`: the component that the pointer points to.
  unfoldable pub get : ℕ → ComponentStorage A → Option A
  get entity st =
      if leb (length st.sparse) entity || (get_or st.sparse entity absent == absent)
      then none
      else get_elem? st.dense (get_or st.sparse entity absent)
