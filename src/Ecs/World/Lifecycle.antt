-- ===== src/Ecs/World/Lifecycle.antt =====
-- The handles that are alive are a set: `CreateEntity` adds a new one, `DestroyEntity` takes one away.
use native.Mathlib.Nat.{mod-eq_of_lt}
use earth_rise_game.Prelude.{
  ℕ, ◌+◌, ◌*◌, ◌%◌, ◌^◌, ◌≤◌, ◌<◌, ◌≡◌, ◌⊎◌, refl, ap, sym, ◌∙◌, Bool, true, false, not, ◌&&◌, ◌||◌,
  List, [], ◌∷◌, Option, ◌==◌, arith, length, set, length-append, length-set, get_or-set_self,
  get_or-set_ne, Bool-cases, inl, inr, ==→eq, ne→==, ==_self, bit_and,
}
use earth_rise_game.Prelude.Sets.{contains, contains-cons, Distinct}
use earth_rise_game.Prelude.Mask.{bit_and_mask}
use earth_rise_game.Prelude.Vectors.{get_or_out}
use earth_rise_game.Ecs.{EntityHandle, make, same_handle, is_null, max_gen}
use earth_rise_game.Ecs.Handles.{index_lem, make_lem}
use earth_rise_game.Ecs.Storage.{ComponentStorage}
use earth_rise_game.Ecs.World.{
  EntityRecord, new_record, World, record_at, take_index, create_entity, is_alive, destroy_entity,
}
use earth_rise_game.Ecs.World.Liveness.{
  lives, is_alive_lem, activate, lives_low, deactivate, appended, no_member,
}

module _ {ℓ} {A : Type ℓ} where
  -- What every world that these operations make has: at most 2 ^ 20 records, generations of 12 bits, and
  -- a free list of dead records, none of them the one of the null entity or twice there.
  pub record IsWorld (w : World A) : Type ℓ where
    pub nonempty : 0 < length w.records
    pub few : length w.records ≤ 2 ^ 20
    pub gens : (i : ℕ) → (record_at w i).generation < 2 ^ 12
    pub free :
        (i : ℕ)
        → contains i w.free_list ≡ true
        → (0 < i) × (i < length w.records) × ((record_at w i).alive ≡ false)
    pub distinct : Distinct w.free_list

  -- There is an index for another entity.
  abbrev pub HasRoom : World A → Type 0
  HasRoom w = elim w.free_list [ [] ↦ length w.records < 2 ^ 20 | idx ∷ rest ↦ Unit ]

  -- What is true of the world in which an index was taken.
  record Taken (w : World A) (idx : ℕ) (w' : World A) : Type ℓ where
    world : IsWorld w'
    pos : 0 < idx
    low : idx < length w'.records
    dead : (record_at w' idx).alive ≡ false
    kept : (h : EntityHandle) → lives h w'.records ≡ lives h w.records
    off : contains idx w'.free_list ≡ false

  take_index_lem :
      (rs : List EntityRecord) (frees : List ℕ) (sts : List (Option (ComponentStorage A)))
      → let w : World A = record { records = rs; free_list = frees; storages = sts } in
        IsWorld w → HasRoom w → let (idx, w') = take_index w in Taken w idx w'
  unfolding take_index
  take_index_lem rs [] sts v room =
      let idx : length rs % 2 ^ 32 ≡ length rs = mod-eq_of_lt (omega arith) in
      rw idx (record {
        world = record {
          nonempty = omega (arith, length-append rs (new_record ∷ []));
          few = omega (arith, length-append rs (new_record ∷ []), room);
          gens = λ i. rw (appended rs i) (v.gens i);
          free = λ i h. absurd (no_member i h);
          distinct = tt;
        };
        pos = v.nonempty;
        low = omega (arith, length-append rs (new_record ∷ []));
        dead =
            rw (appended rs (length rs), get_or_out rs (length rs) new_record (omega arith)) refl;
        kept = λ h. rw (appended rs (h.value % 2 ^ 20)) refl;
        off = unfold contains in refl;
      })
  take_index_lem rs (idx ∷ rest) sts v room =
      let (pos, low, dead) = v.free idx (contains-cons idx idx rest ∙ rw (==_self idx) refl) in
      record {
        world = record {
          nonempty = v.nonempty;
          few = v.few;
          gens = v.gens;
          free = λ i h. v.free i (contains-cons i idx rest ∙ rw h (ground arith));
          distinct = v.distinct.1;
        };
        pos = pos;
        low = low;
        dead = dead;
        kept = λ h. refl;
        off = v.distinct.0;
      }

  -- A record is replaced by one that is dead if its index is free.
  set-IsWorld :
      (w : World A) (idx : ℕ) (r : EntityRecord)
      → IsWorld w
      → idx < length w.records
      → r.generation < 2 ^ 12
      → (contains idx w.free_list ≡ true → r.alive ≡ false)
      → IsWorld (record w { records = set w.records idx r })
  set-IsWorld w idx r v low small dead = record {
    nonempty = omega (arith, length-set w.records idx r, v.nonempty);
    few = omega (arith, length-set w.records idx r, v.few);
    gens = λ i. elim (Bool-cases (idx == i)) [
      | inl y ↦ rw (sym (==→eq idx i y), get_or-set_self w.records idx r new_record low) small
      | inr n ↦ rw (get_or-set_ne w.records idx i r new_record (ground arith)) (v.gens i)
    ];
    free = λ i h.
        let (pos, low_i, dead_i) = v.free i h in
        (
          pos,
          omega (arith, length-set w.records idx r, low_i),
          elim (Bool-cases (idx == i)) [
            | inl y ↦
                let q : idx ≡ i = ==→eq idx i y in
                rw (sym q, get_or-set_self w.records idx r new_record low) (dead (rw q h))
            | inr n ↦ rw (get_or-set_ne w.records idx i r new_record (ground arith)) dead_i
          ],
        );
    distinct = v.distinct;
  }

  -- CreateEntity returns a handle that was not alive, and is not null. Afterwards it is alive, and so are
  -- the handles that were, and no others; and the world is well formed.
  pub create_entity_lem :
      (w : World A)
      → IsWorld w
      → HasRoom w
      → let (e, w') = create_entity w in
        IsWorld w'
        × (is_alive e w ≡ false)
        × (is_null e ≡ false)
        × ((h : EntityHandle) → is_alive h w' ≡ (same_handle h e || is_alive h w))
  unfolding create_entity is_null
  create_entity_lem w v room =
      let (idx, w1) = take_index w in
      let t : Taken w idx w1 = take_index_lem w.records w.free_list w.storages v room in
      let gen : ℕ = (record_at w1 idx).generation in
      let e : EntityHandle = make idx gen in
      let small : gen < 2 ^ 12 = t.world.gens idx in
      let below : idx < 2 ^ 20 = omega (arith, t.low, t.world.few) in
      let r : EntityRecord = record (record_at w1 idx) { alive = true; component_mask = 0 } in
      let value : e.value ≡ gen * 2 ^ 20 + idx = make_lem idx gen below small in
      let now : (h : EntityHandle)
          → lives h (set w1.records idx r) ≡ (h.value == e.value || lives h w.records) =
        λ h.
          activate h w1.records idx 0 t.pos t.low t.world.few small t.dead ∙ rw (t.kept h) refl in
      (
        set-IsWorld w1 idx r t.world t.low small (λ h. absurd (ground (arith, h, t.off))),
        is_alive_lem e w ∙ sym (t.kept e) ∙ unborn e w1 idx gen below value t.dead,
        ne→== e.value 0 (omega (arith, value, t.pos)),
        λ h.
            is_alive_lem h _
            ∙ now h
            ∙ ap (λ (b : Bool). h.value == e.value || b) (sym (is_alive_lem h w)),
      )
    where
      unborn :
          (e : EntityHandle) (w1 : World A) (idx gen : ℕ)
          → idx < 2 ^ 20
          → e.value ≡ gen * 2 ^ 20 + idx
          → (record_at w1 idx).alive ≡ false
          → lives e w1.records ≡ false
      unborn e w1 idx gen below value dead =
          let q : e.value % 2 ^ 20 ≡ idx = omega arith in rw (q, dead) (ground arith)

  -- The record of an entity dies, and its index is free.
  destroyed :
      (e : EntityHandle) (w : World A)
      → IsWorld w
      → lives e w.records ≡ true
      → (mask : ℕ) (sts : List (Option (ComponentStorage A)))
      → let idx = e.value % 2 ^ 20 in
        let dead : EntityRecord = record {
          generation = bit_and ((record_at w idx).generation + 1) max_gen;
          component_mask = mask;
          alive = false;
        } in
        let w' : World A = record {
          records = set w.records idx dead;
          free_list = idx ∷ w.free_list;
          storages = sts;
        } in
        IsWorld w' × ((h : EntityHandle) → is_alive h w' ≡ (not (same_handle h e) && is_alive h w))
  destroyed e w v live mask sts =
      let idx : ℕ = e.value % 2 ^ 20 in
      let (pos, low) = lives_low e w.records live in
      let gen : ℕ = (record_at w idx).generation + 1 in
      let dead : EntityRecord = record {
        generation = bit_and gen max_gen;
        component_mask = mask;
        alive = false;
      } in
      let small : bit_and gen max_gen < 2 ^ 12 = rw (bit_and_mask 12 gen) (omega arith) in
      let u : IsWorld (record w { records = set w.records idx dead }) =
        set-IsWorld w idx dead v low small (λ h. refl) in
      let size : length (set w.records idx dead) ≡ length w.records =
        length-set w.records idx dead in
      let new = get_or-set_self w.records idx dead new_record low in
      (
        record {
          nonempty = u.nonempty;
          few = u.few;
          gens = u.gens;
          free = λ i h. elim (Bool-cases (i == idx)) [
            | inl y ↦
                rw (==→eq i idx y)
                  (pos, omega (arith, size, low), ap (λ (r : EntityRecord). r.alive) new)
            | inr n ↦ u.free i (ground (arith, h, n, contains-cons i idx w.free_list))
          ];
          distinct = (fresh (Bool-cases (contains idx w.free_list)), v.distinct);
        },
        λ h.
            is_alive_lem h _
            ∙ deactivate h e w.records dead live refl
            ∙ ap (λ (b : Bool). not (h.value == e.value) && b) (sym (is_alive_lem h w)),
      )
    where
      fresh :
          (contains (e.value % 2 ^ 20) w.free_list ≡ true)
            ⊎ (contains (e.value % 2 ^ 20) w.free_list ≡ false)
          → contains (e.value % 2 ^ 20) w.free_list ≡ false
      fresh (inl y) = absurd (ground (arith, live, (v.free (e.value % 2 ^ 20) y).2))
      fresh (inr n) = n

  -- DestroyEntity takes its handle from the handles that are alive, and leaves the others; the world stays
  -- well formed. With a handle that is not alive, no handle dies.
  pub destroy_entity_lem :
      (e : EntityHandle) (w : World A)
      → IsWorld w
      → IsWorld (destroy_entity e w)
        × ((h : EntityHandle)
            → is_alive h (destroy_entity e w) ≡ (not (same_handle h e) && is_alive h w))
  unfolding destroy_entity
  destroy_entity_lem e w v = elim (Bool-cases (is_alive e w)) [
    | inl y ↦ rw (y, index_lem e) (destroyed e w v (sym (is_alive_lem e w) ∙ y) _ _)
    | inr n ↦ rw n (v, λ h. unchanged h n)
  ]
    where
      unchanged :
          (h : EntityHandle)
          → is_alive e w ≡ false
          → is_alive h w ≡ (not (same_handle h e) && is_alive h w)
      unchanged h n = elim (Bool-cases (h.value == e.value)) [
        | inl y ↦
            let same : is_alive h w ≡ false =
              is_alive_lem h w
              ∙ ap (λ (k : ℕ). lives (record { value = k }) w.records) (==→eq h.value e.value y)
              ∙ sym (is_alive_lem e w)
              ∙ n in
            rw (y, same) refl
        | inr z ↦ rw z refl
      ]
