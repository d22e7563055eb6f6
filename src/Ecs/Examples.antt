-- ===== src/Ecs/Examples.antt =====
-- A world with a few entities.
use earth_rise_game.Prelude.{
  ℕ, zero, suc, ◌^◌, ◌<◌, ◌≡◌, ◌≢◌, refl, true, false, [], not, ◌&&◌, ◌||◌, none, some, arith,
  length, if◌then◌else◌, ◌==◌, ltb, bit_and, get_or, set,
}
use earth_rise_game.Prelude.Sets.{contains}
use earth_rise_game.Ecs.{EntityHandle, make, same_handle, is_null}
use earth_rise_game.Ecs.Storage.{
  ComponentStorage, absent, new_storage, insert, remove, get, ensure_sparse,
}
use earth_rise_game.Ecs.Storage.Slots.{slot, IsStorage, insert-IsStorage}
use earth_rise_game.Ecs.Storage.View.{insert_refines, remove_refines}
use earth_rise_game.Ecs.World.{
  World, new_world, record_at, take_index, create_entity, destroy_entity, is_alive, for_each,
  for_each_calls, for_each_loop, register_component, add_component, get_component,
}
use earth_rise_game.Ecs.World.Lifecycle.{IsWorld, create_entity_lem, destroy_entity_lem}
use earth_rise_game.Ecs.World.Reuse.{stale_lem}
use earth_rise_game.Ecs.World.Iteration.{AscendingFrom, for_each_lem}
use earth_rise_game.Ecs.World.Calls.{call_all, for_each_calls_lem}

-- Components that are numbers: entity 5 has one, and then entity 2.
abbrev empty : ComponentStorage ℕ
empty = new_storage

empty-IsStorage : IsStorage empty
empty-IsStorage = record {
  same = refl;
  small = omega arith;
  back = λ e h. absurd (h refl);
  there = λ i h. absurd (omega arith);
}

abbrev one : ComponentStorage ℕ
one = insert 70 5 empty

one-IsStorage : IsStorage one
one-IsStorage = insert-IsStorage 70 5 empty empty-IsStorage refl (omega arith)

free_two : slot one 2 ≡ absent
unfolding insert ensure_sparse
free_two = refl

abbrev two : ComponentStorage ℕ
two = insert 20 2 one

two-IsStorage : IsStorage two
two-IsStorage = insert-IsStorage 20 2 one one-IsStorage free_two room
  where
    room : suc (length one.dense) < absent
    room = unfold insert in omega arith

has_five : slot two 5 ≢ absent
has_five = unfold insert ensure_sparse in omega arith

insert_refines_example :
    IsStorage (insert 20 2 one)
    × ((j : ℕ) → get j (insert 20 2 one) ≡ (if 2 == j then some 20 else get j one))
insert_refines_example = insert_refines 20 2 one one-IsStorage free_two room
  where
    room : suc (length one.dense) < absent
    room = unfold insert in omega arith

remove_refines_example :
    IsStorage (remove 5 two).1
    × ((j : ℕ) → get j (remove 5 two).1 ≡ (if 5 == j then none else get j two))
remove_refines_example = remove_refines 5 two two-IsStorage has_five

abbrev start : World ℕ
start = new_world

start-IsWorld : IsWorld start
start-IsWorld = record {
  nonempty = omega arith;
  few = omega arith;
  gens = gen;
  free = λ i h. absurd (nothing i h);
  distinct = tt;
}
  where
    gen : (i : ℕ) → (record_at start i).generation < 2 ^ 12
    gen zero = omega arith
    gen (suc i) = omega arith

    nothing : (i : ℕ) → contains i [] ≡ true → ⊥
    nothing i h = unfold contains in ground arith

create_entity_lem_example :
    let (e, w) = create_entity start in
    IsWorld w
    × (is_alive e start ≡ false)
    × (is_null e ≡ false)
    × ((h : EntityHandle) → is_alive h w ≡ (same_handle h e || is_alive h start))
create_entity_lem_example = create_entity_lem start start-IsWorld (omega arith)

abbrev first : EntityHandle
first = (create_entity start).0

abbrev inhabited : World ℕ
inhabited = (create_entity start).1

first_alive : is_alive first inhabited ≡ true
unfolding create_entity make take_index
first_alive = (create_entity_lem start start-IsWorld (omega arith)).3 first

destroy_entity_lem_example :
    IsWorld (destroy_entity first inhabited)
    × ((h : EntityHandle)
        → is_alive h (destroy_entity first inhabited)
          ≡ (not (same_handle h first) && is_alive h inhabited))
destroy_entity_lem_example =
    destroy_entity_lem first inhabited (create_entity_lem start start-IsWorld (omega arith)).0

stale_lem_example : is_alive first (create_entity (destroy_entity first inhabited)).1 ≡ false
stale_lem_example =
    stale_lem first inhabited (create_entity_lem start start-IsWorld (omega arith)).0 first_alive

for_each_lem_example :
    AscendingFrom 1 (for_each 0 inhabited)
    × ((i : ℕ)
        → contains i (for_each 0 inhabited) ≡ (
            ltb 0 i
            && ((record_at inhabited i).alive
                && (bit_and (record_at inhabited i).component_mask 0 == 0))))
for_each_lem_example = for_each_lem 0 inhabited

-- A function that gives the component of type 0 the value 9.
abbrev write_nine : ℕ → World ℕ → World ℕ
write_nine i w = record w {
  storages = elim (get_or w.storages 0 none) [
    | none ↦ w.storages
    | some st ↦
        set w.storages 0 (some (record st { dense = set st.dense (get_or st.sparse i absent) 9 }))
  ];
}

-- The entity has the component of type 0, and is visited for its mask.
abbrev equipped : World ℕ
equipped = add_component 5 0 first (register_component 0 inhabited)

few_records : length equipped.records < 2 ^ 32
unfolding create_entity take_index register_component add_component earth_rise_game.Ecs.index make
few_records = omega arith

for_each_calls_lem_example :
    for_each_calls write_nine 1 equipped ≡ call_all write_nine (for_each 1 equipped) equipped
for_each_calls_lem_example = for_each_calls_lem write_nine (λ i w. refl) 1 equipped few_records

nine_written : get_component 0 first (for_each_calls write_nine 1 equipped) ≡ some 9
unfolding for_each_calls for_each_loop create_entity take_index register_component add_component
    get_component is_alive insert ensure_sparse get make earth_rise_game.Ecs.index
    earth_rise_game.Ecs.generation
nine_written = refl
