-- ===== src/Ecs/Storage/Removal.antt =====
-- What `Remove` makes of the slots: the last element moves to the place of the removed one.
use earth_rise_game.Prelude.{
  ℕ, suc, ◌+◌, ◌-◌, ◌%◌, ◌^◌, ◌<◌, ◌≡◌, ◌≢◌, refl, ap, sym, ◌∙◌, Bool, true, false, List, Option,
  none, some, ltb, ◌==◌, if◌then◌else◌, arith, length, get_elem?, get_elem?_in, get_or, set,
  length-set, get_or-set_self, get_or-set_ne, Bool-cases, inl, inr, ne→==, ==_self, ==→eq,
}
use earth_rise_game.Prelude.Vectors.{
  move_element, length-pop_back, get_elem?-pop_back, get_or-pop_back, get_or_out,
  get_elem?-set_self, get_elem?-set_ne,
}
use earth_rise_game.Ecs.Storage.{ComponentStorage, absent, remove}
use earth_rise_game.Ecs.Storage.Slots.{slot, entity, IsStorage}

last_lem : (n : ℕ) → 0 < n → n < 2 ^ 32 → (n % 2 ^ 32 + 2 ^ 32 - 1) % 2 ^ 32 ≡ n - 1
last_lem n p h = omega arith

set_if {ℓ} :
    {A : Type ℓ} (b : Bool) (xs : List A) (i : ℕ) (v : A)
    → length (if b then xs else set xs i v) ≡ length xs
set_if true xs i v = refl
set_if false xs i v = length-set xs i v

length-move_element {ℓ} :
    {A : Type ℓ} (b : Bool) (from to : ℕ) (xs : List A)
    → length (if b then xs else move_element from to xs) ≡ length xs
length-move_element true from to xs = refl
length-move_element false from to xs = moved (get_elem? xs from)
  where
    moved : (o : Option _) → length (elim o [ none ↦ xs | some x ↦ set xs to x ]) ≡ length xs
    moved none = refl
    moved (some x) = length-set xs to x

module _ {ℓ} {A : Type ℓ} (e : ℕ) (st : ComponentStorage A) (v : IsStorage st)
    (here : slot st e ≢ absent) where
  abbrev last : ℕ
  last = length st.dense - 1

  low : slot st e < length st.dense
  low = (v.back e here).0

  own : entity st (slot st e) ≡ e
  own = (v.back e here).1

  last_own : slot st (entity st last) ≡ last
  last_own = v.there last (omega (arith, low))

  -- The entity of the last element, and no other, has the last slot.
  last_only : (j : ℕ) → slot st j ≡ last → entity st last ≡ j
  last_only j q = ap (entity st) (sym q) ∙ (v.back j (omega (arith, low, v.small, q))).1

  sparse_if :
      (j : ℕ)
      → get_or
          (if slot st e == last then st.sparse else set st.sparse (entity st last) (slot st e))
          j
          absent
        ≡ (if slot st j == last then slot st e else slot st j)
  sparse_if j = elim (Bool-cases (slot st e == last)) [
    | inl y ↦ elim (Bool-cases (slot st j == last)) [
      | inl z ↦ rw (y, z) (ground (arith, y, z))
      | inr z ↦ rw (y, z) refl
    ]
    | inr n ↦ elim (Bool-cases (entity st last == j)) [
      | inl y ↦
          let q : entity st last ≡ j = ==→eq (entity st last) j y in
          let at_last : slot st j ≡ last = ap (slot st) (sym q) ∙ last_own in
          rw (n, at_last, ==_self last, sym q)
            (get_or-set_self st.sparse (entity st last) (slot st e) absent
              (known (entity st last) (omega (arith, last_own, low, v.small))))
      | inr z ↦
          let differ : entity st last ≢ j = ground arith in
          rw (n, ne→== (slot st j) last (λ q. differ (last_only j q)))
            (get_or-set_ne st.sparse (entity st last) j (slot st e) absent differ)
    ]
  ]
    where
      known : (j : ℕ) → slot st j ≢ absent → j < length st.sparse
      known j h = elim (Bool-cases (ltb j (length st.sparse))) [
        | inl y ↦ ground arith
        | inr n ↦ absurd (h (get_or_out st.sparse j absent (ground arith)))
      ]

  e_known : e < length st.sparse
  e_known = elim (Bool-cases (ltb e (length st.sparse))) [
    | inl y ↦ ground arith
    | inr n ↦ absurd (here (get_or_out st.sparse e absent (ground arith)))
  ]

  pub slot-remove :
      (j : ℕ)
      → slot (remove e st).1 j ≡ (
          if e == j
          then absent
          else if slot st j == length st.dense - 1
          then slot st e
          else slot st j)
  unfolding remove
  slot-remove j =
      let sparse : List ℕ =
        if slot st e == last then st.sparse else set st.sparse (entity st last) (slot st e) in
      rw (last_lem (length st.dense) (omega (arith, low)) (omega (arith, v.small)))
        (elim (Bool-cases (e == j)) [
          | inl y ↦
              let room : e < length sparse = omega (
                arith,
                e_known,
                set_if (slot st e == last) st.sparse (entity st last) (slot st e),
              ) in
              rw (y, sym (==→eq e j y)) (get_or-set_self sparse e absent absent room)
          | inr n ↦ rw n (get_or-set_ne sparse e j absent absent (ground arith) ∙ sparse_if j)
        ])

  pub entity-remove :
      (i : ℕ)
      → suc i < length st.dense
      → entity (remove e st).1 i
        ≡ (if i == slot st e then entity st (length st.dense - 1) else entity st i)
  unfolding remove
  entity-remove i h =
      let owners : List ℕ =
        if slot st e == last
        then st.dense_to_entity
        else set st.dense_to_entity (slot st e) (entity st last) in
      let size : length owners ≡ length st.dense_to_entity =
        set_if (slot st e == last) st.dense_to_entity (slot st e) (entity st last) in
      rw (last_lem (length st.dense) (omega (arith, low)) (omega (arith, v.small))) (
        get_or-pop_back owners i absent (omega (arith, size, v.same))
        ∙ elim (Bool-cases (slot st e == last)) [
          | inl y ↦ rw (y, ne→== i (slot st e) (ground arith)) refl
          | inr n ↦ elim (Bool-cases (i == slot st e)) [
            | inl z ↦
                rw (n, z, ==→eq i (slot st e) z)
                  (get_or-set_self st.dense_to_entity (slot st e) (entity st last) absent
                    (omega (arith, low, v.same)))
            | inr z ↦
                rw (n, z)
                  (get_or-set_ne st.dense_to_entity (slot st e) i (entity st last) absent
                    (ground arith))
          ]
        ])

  pub length-remove : length (remove e st).1.dense ≡ length st.dense - 1
  unfolding remove
  length-remove = rw (last_lem (length st.dense) (omega (arith, low)) (omega (arith, v.small))) (
      length-pop_back _
      ∙ ap (λ (n : ℕ). n - 1) (length-move_element (slot st e == last) last (slot st e) st.dense))

  pub length-owners : length (remove e st).1.dense_to_entity ≡ length st.dense - 1
  unfolding remove
  length-owners =
      length-pop_back _ ∙ ap (λ (n : ℕ). n - 1) (set_if _ st.dense_to_entity _ _ ∙ v.same)

  pub dense-remove :
      (i : ℕ)
      → suc i < length st.dense
      → get_elem? (remove e st).1.dense i ≡ (
          if i == slot st e then get_elem? st.dense (length st.dense - 1) else get_elem? st.dense i)
  unfolding remove
  dense-remove i h =
      let elements : List A =
        if slot st e == last then st.dense else move_element last (slot st e) st.dense in
      let size : length elements ≡ length st.dense =
        length-move_element (slot st e == last) last (slot st e) st.dense in
      rw (last_lem (length st.dense) (omega (arith, low)) (omega (arith, v.small))) (
        get_elem?-pop_back elements i (omega (arith, size))
        ∙ elim (Bool-cases (slot st e == last)) [
          | inl y ↦ rw (y, ne→== i (slot st e) (ground arith)) refl
          | inr n ↦ rw n (moved (get_elem?_in st.dense last (omega (arith, low))))
        ])
    where
      moved :
          ((x : A) × (get_elem? st.dense last ≡ some x))
          → get_elem? (move_element last (slot st e) st.dense) i
            ≡ (if i == slot st e then get_elem? st.dense last else get_elem? st.dense i)
      moved (x, q) =
          let written : move_element last (slot st e) st.dense ≡ set st.dense (slot st e) x =
            ap (λ (o : Option A). elim o [ none ↦ st.dense | some y ↦ set st.dense (slot st e) y ])
              q in
          ap (λ (ys : List A). get_elem? ys i) written ∙ elim (Bool-cases (i == slot st e)) [
            | inl z ↦
                rw (z, ==→eq i (slot st e) z)
                  (get_elem?-set_self st.dense (slot st e) x low ∙ sym q)
            | inr z ↦ rw z (get_elem?-set_ne st.dense (slot st e) i x (ground arith))
          ]
