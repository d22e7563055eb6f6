-- ===== src/Ecs/Storage/View.antt =====
-- A sparse set is a map from entities to components.
use earth_rise_game.Prelude.{
  ℕ, suc, ◌-◌, ◌<◌, ◌≡◌, ◌≢◌, ◌⊎◌, refl, ap, sym, ◌∙◌, false, List, [], ◌∷◌, none, some, ◌==◌,
  if◌then◌else◌, arith, length, get_elem?, get_elem?-append_at, Bool-cases, inl, inr, ne→==,
  ==_self, ==→eq,
}
use earth_rise_game.Prelude.Vectors.{get_elem?-append_left}
use earth_rise_game.Ecs.Storage.{ComponentStorage, absent, insert, remove, get}
use earth_rise_game.Ecs.Storage.Slots.{
  slot, entity, IsStorage, get_lem, slot-insert, insert-IsStorage,
}
use earth_rise_game.Ecs.Storage.Removal.{
  slot-remove, entity-remove, length-remove, length-owners, dense-remove,
}

ne_of : (a b : ℕ) → (a == b) ≡ false → a ≢ b
ne_of a b h = ground arith

-- Reading through a slot.
read_slot {ℓ} :
    {A : Type ℓ} (dense : List A) (i k : ℕ)
    → i ≡ k
    → k ≢ absent
    → (if i == absent then none else get_elem? dense i) ≡ get_elem? dense k
read_slot dense i k q h = rw (q, ne→== k absent h) refl

module _ {ℓ} {A : Type ℓ} where
  module _ (e : ℕ) (st : ComponentStorage A) (v : IsStorage st) (here : slot st e ≢ absent) where
    abbrev last : ℕ
    last = length st.dense - 1

    low : slot st e < length st.dense
    low = (v.back e here).0

    -- Another entity with a component had the last element, and has the place of the removed one; or
    -- it keeps its element.
    other :
        (j : ℕ)
        → e ≢ j
        → slot st j ≢ absent
        → ((slot st j ≡ last) × (slot (remove e st).1 j ≡ slot st e) × (slot st e < last))
          ⊎ ((slot (remove e st).1 j ≡ slot st j) × (slot st j < last) × (slot st j ≢ slot st e))
    other j differ there =
        let (low_j, own_j) = v.back j there in
        let apart : slot st j ≢ slot st e =
          λ q. differ (sym (v.back e here).1 ∙ ap (entity st) (sym q) ∙ own_j) in
        elim (Bool-cases (slot st j == last)) [
          | inl y ↦
              let q : slot st j ≡ last = ==→eq (slot st j) last y in
              inl (
                q,
                slot-remove e st v here j ∙ rw (ne→== e j differ, y) refl,
                omega (arith, low, q, apart),
              )
          | inr n ↦ inr (
            slot-remove e st v here j ∙ rw (ne→== e j differ, n) refl,
            ground (arith, low_j),
            apart,
          )
        ]

    none_left : (j : ℕ) → e ≢ j → slot st j ≡ absent → slot (remove e st).1 j ≡ absent
    none_left j differ z =
        slot-remove e st v here j
        ∙ rw (ne→== e j differ, ne→== (slot st j) last (omega (arith, z, v.small))) z

    -- Remove keeps the two directions of the sparse set in agreement.
    remove-IsStorage : IsStorage (remove e st).1
    remove-IsStorage = record {
      same = length-owners e st v here ∙ sym (length-remove e st v here);
      small = omega (arith, length-remove e st v here, v.small);
      back = λ j there. elim (Bool-cases (e == j)) [
        | inl y ↦ absurd (there (slot-remove e st v here j ∙ rw y refl))
        | inr n ↦ elim (Bool-cases (slot st j == absent)) [
          | inl z ↦ absurd (there (none_left j (ground arith) (==→eq (slot st j) absent z)))
          | inr z ↦ elim (other j (ground arith) (ground arith)) [
            | inl (q, new, front) ↦ rw new (
              omega (arith, length-remove e st v here, front),
              entity-remove e st v here (slot st e) (omega (arith, front, low))
                  ∙ rw (==_self (slot st e)) (ap (entity st) (sym q) ∙ (v.back j (ground arith)).1),
            )
            | inr (kept, front, apart) ↦ rw kept (
              omega (arith, length-remove e st v here, front),
              entity-remove e st v here (slot st j) (omega (arith, front, low))
                  ∙ rw (ne→== (slot st j) (slot st e) apart) (v.back j (ground arith)).1,
            )
          ]
        ]
      ];
      there = λ i h.
          let front : suc i < length st.dense = omega (arith, h, length-remove e st v here) in
          let last_own : slot st (entity st last) ≡ last = v.there last (omega (arith, low)) in
          elim (Bool-cases (i == slot st e)) [
            | inl y ↦
                let q : i ≡ slot st e = ==→eq i (slot st e) y in
                let differ : e ≢ entity st last =
                  λ same. omega (arith, front, q, last_own, ap (slot st) same) in
                ap (slot (remove e st).1) (entity-remove e st v here i front ∙ rw y refl)
                ∙ slot-remove e st v here (entity st last)
                ∙ rw (ne→== e (entity st last) differ, last_own, ==_self last) (sym q)
            | inr n ↦
                let own : slot st (entity st i) ≡ i = v.there i (omega (arith, front)) in
                let differ : e ≢ entity st i =
                  λ same. ne_of i (slot st e) n (sym own ∙ ap (slot st) (sym same)) in
                ap (slot (remove e st).1) (entity-remove e st v here i front ∙ rw n refl)
                ∙ slot-remove e st v here (entity st i)
                ∙ rw (ne→== e (entity st i) differ, own, ne→== i last (omega (arith, front))) refl
          ];
    }

    -- Reading after Remove.
    get-remove : (j : ℕ) → get j (remove e st).1 ≡ (if e == j then none else get j st)
    get-remove j = get_lem j (remove e st).1 ∙ elim (Bool-cases (e == j)) [
      | inl y ↦ rw (y, slot-remove e st v here j) (rw y refl)
      | inr n ↦ rw n (found n ∙ sym (get_lem j st))
    ]
      where
        found :
            (e == j) ≡ false
            → (if slot (remove e st).1 j == absent
                then none
                else get_elem? (remove e st).1.dense (slot (remove e st).1 j))
              ≡ (if slot st j == absent then none else get_elem? st.dense (slot st j))
        found n = elim (Bool-cases (slot st j == absent)) [
          | inl z ↦ rw (z, none_left j (ground arith) (==→eq (slot st j) absent z)) refl
          | inr z ↦ elim (other j (ground arith) (ground arith)) [
            | inl (q, new, front) ↦
                read_slot _ (slot (remove e st).1 j) (slot st e) new here
                ∙ dense-remove e st v here (slot st e) (omega (arith, front, low))
                ∙ rw (==_self (slot st e))
                    (sym (read_slot st.dense (slot st j) last q (omega (arith, v.small, low))))
            | inr (kept, front, apart) ↦
                read_slot _ (slot (remove e st).1 j) (slot st j) kept (ground arith)
                ∙ dense-remove e st v here (slot st j) (omega (arith, front, low))
                ∙ rw (ne→== (slot st j) (slot st e) apart, z) refl
          ]
        ]

  -- Reading after Insert.
  get-insert :
      (fresh : A) (e j : ℕ) (st : ComponentStorage A)
      → IsStorage st
      → get j (insert fresh e st) ≡ (if e == j then some fresh else get j st)
  get-insert fresh e j st v = get_lem j (insert fresh e st) ∙ elim (Bool-cases (e == j)) [
    | inl y ↦
        let new : slot (insert fresh e st) j ≡ length st.dense =
          slot-insert fresh e j st v.small ∙ rw y refl in
        rw y (
          read_slot _ (slot (insert fresh e st) j) (length st.dense) new (omega (arith, v.small))
          ∙ unfold insert in get_elem?-append_at st.dense fresh [] (length st.dense) refl)
    | inr n ↦ rw n (elsewhere n ∙ sym (get_lem j st))
  ]
    where
      elsewhere :
          (e == j) ≡ false
          → (if slot (insert fresh e st) j == absent
              then none
              else get_elem? (insert fresh e st).dense (slot (insert fresh e st) j))
            ≡ (if slot st j == absent then none else get_elem? st.dense (slot st j))
      elsewhere n = elim (Bool-cases (slot st j == absent)) [
        | inl z ↦ rw (z, slot-insert fresh e j st v.small) (rw (n, z) refl)
        | inr z ↦
            let kept : slot (insert fresh e st) j ≡ slot st j =
              slot-insert fresh e j st v.small ∙ rw n refl in
            let (low, own) = v.back j (ne_of (slot st j) absent z) in
            let old_element : get_elem? (insert fresh e st).dense (slot st j)
                ≡ get_elem? st.dense (slot st j) =
              unfold insert in get_elem?-append_left st.dense (fresh ∷ []) (slot st j) low in
            read_slot _ (slot (insert fresh e st) j) (slot st j) kept (ne_of (slot st j) absent z)
            ∙ old_element
            ∙ rw z refl
      ]

  -- Insert, for an entity that has no component and below 2 ^ 32 - 2 components, keeps the sparse set well
  -- formed and adds the default component for that entity to the map that Get reads.
  pub insert_refines :
      (fresh : A) (e : ℕ) (st : ComponentStorage A)
      → IsStorage st
      → slot st e ≡ absent
      → suc (length st.dense) < absent
      → IsStorage (insert fresh e st)
        × ((j : ℕ) → get j (insert fresh e st) ≡ (if e == j then some fresh else get j st))
  insert_refines fresh e st v free room =
      (insert-IsStorage fresh e st v free room, λ j. get-insert fresh e j st v)

  -- Remove, for an entity that has a component, keeps the sparse set well formed and takes away what Get
  -- reads for that entity, and for no other, though it moves the last component.
  pub remove_refines :
      (e : ℕ) (st : ComponentStorage A)
      → IsStorage st
      → slot st e ≢ absent
      → IsStorage (remove e st).1
        × ((j : ℕ) → get j (remove e st).1 ≡ (if e == j then none else get j st))
  remove_refines e st v here = (remove-IsStorage e st v here, get-remove e st v here)
