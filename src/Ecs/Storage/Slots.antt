-- ===== src/Ecs/Storage/Slots.antt =====
-- The slots of a sparse set: which element is an entity's, and whose an element is.
use native.Mathlib.Nat.{mod-eq_of_lt}
use earth_rise_game.Prelude.{
  ℕ, suc, ◌+◌, ◌-◌, ◌%◌, ◌^◌, ◌≤◌, ◌<◌, ◌≡◌, ◌≢◌, refl, ap, sym, ◌∙◌, Bool, ◌||◌, List, [], ◌∷◌,
  none, leb, ◌==◌, if◌then◌else◌, arith, length, get_elem?, get_or, replicate, length-append,
  length-replicate, get_or-set_self, get_or-set_ne, get_or-append_left, get_or-append_self,
  Bool-cases, inl, inr, ne→==, ==_self,
}
use earth_rise_game.Prelude.Vectors.{get_or_out, get_or-append_replicate}
use earth_rise_game.Ecs.Storage.{ComponentStorage, absent, ensure_sparse, insert, get}

ensured : (e j : ℕ) (xs : List ℕ) → get_or (ensure_sparse e xs) j absent ≡ get_or xs j absent
unfolding ensure_sparse
ensured e j xs = elim (Bool-cases (leb (length xs) e)) [
  | inl out ↦ rw out (get_or-append_replicate xs (e + 1 - length xs) j absent)
  | inr there ↦ rw there refl
]

length-ensured : (e : ℕ) (xs : List ℕ) → e < length (ensure_sparse e xs)
unfolding ensure_sparse
length-ensured e xs = elim (Bool-cases (leb (length xs) e)) [
  | inl out ↦ rw out (
      ground (
        arith,
        length-append xs (replicate (e + 1 - length xs) absent),
        length-replicate (e + 1 - length xs) absent,
      ))
  | inr there ↦ rw there (ground arith)
]

module _ {ℓ} {A : Type ℓ} where
  -- The element of an entity, and the entity of an element.
  abbrev pub slot : ComponentStorage A → ℕ → ℕ
  slot st e = get_or st.sparse e absent

  abbrev pub entity : ComponentStorage A → ℕ → ℕ
  entity st i = get_or st.dense_to_entity i absent

  -- The two directions of the sparse set agree, and `absent` is no element.
  pub record IsStorage (st : ComponentStorage A) : Type ℓ where
    pub same : length st.dense_to_entity ≡ length st.dense
    pub small : length st.dense < absent
    pub back :
        (e : ℕ) → slot st e ≢ absent → (slot st e < length st.dense) × (entity st (slot st e) ≡ e)
    pub there : (i : ℕ) → i < length st.dense → slot st (entity st i) ≡ i

  pub get_lem :
      (e : ℕ) (st : ComponentStorage A)
      → get e st ≡ (if slot st e == absent then none else get_elem? st.dense (slot st e))
  unfolding get
  get_lem e st = elim (Bool-cases (leb (length st.sparse) e)) [
    | inl out ↦
        let s : slot st e ≡ absent = get_or_out st.sparse e absent (ground arith) in
        ap
          (λ (t : Bool).
            if t || (slot st e == absent) then none else get_elem? st.dense (slot st e))
          out
        ∙ rw s refl
    | inr there ↦
        ap
          (λ (t : Bool).
            if t || (slot st e == absent) then none else get_elem? st.dense (slot st e))
          there
  ]

  pub slot-insert :
      (fresh : A) (e j : ℕ) (st : ComponentStorage A)
      → length st.dense < absent
      → slot (insert fresh e st) j ≡ (if e == j then length st.dense else slot st j)
  unfolding insert
  slot-insert fresh e j st small = elim (Bool-cases (e == j)) [
    | inl y ↦
        let q : e ≡ j = ground arith in
        rw
          (
            y,
            sym q,
            get_or-set_self (ensure_sparse e st.sparse) e (length st.dense % 2 ^ 32) absent
                (length-ensured e st.sparse),
          )
          (mod-eq_of_lt (omega arith))
    | inr n ↦
        rw
          (
            n,
            get_or-set_ne (ensure_sparse e st.sparse) e j (length st.dense % 2 ^ 32) absent
                (ground arith),
          )
          (ensured e j st.sparse)
  ]

  pub entity-insert :
      (fresh : A) (e i : ℕ) (st : ComponentStorage A)
      → IsStorage st
      → i ≤ length st.dense
      → entity (insert fresh e st) i ≡ (if i == length st.dense then e else entity st i)
  unfolding insert
  entity-insert fresh e i st v h = elim (Bool-cases (i == length st.dense)) [
    | inl y ↦
        let q : i ≡ length st.dense_to_entity = ground (arith, v.same) in
        rw (y, q) (get_or-append_self st.dense_to_entity e absent)
    | inr n ↦
        rw n (get_or-append_left st.dense_to_entity (e ∷ []) i absent (ground (arith, v.same)))
  ]

  pub insert-IsStorage :
      (fresh : A) (e : ℕ) (st : ComponentStorage A)
      → IsStorage st
      → slot st e ≡ absent
      → suc (length st.dense) < absent
      → IsStorage (insert fresh e st)
  insert-IsStorage fresh e st v free room = record {
    same =
        unfold insert in
        omega (
          arith,
          length-append st.dense_to_entity (e ∷ []),
          length-append st.dense (fresh ∷ []),
          v.same,
        );
    small = omega (arith, size);
    back = λ j there. elim (Bool-cases (e == j)) [
      | inl y ↦
          let at_end : slot (insert fresh e st) j ≡ length st.dense =
            slot-insert fresh e j st v.small ∙ rw y refl in
          let new : entity (insert fresh e st) (length st.dense) ≡ e =
            entity-insert fresh e (length st.dense) st v (omega arith)
            ∙ rw (==_self (length st.dense)) refl in
          rw at_end (omega (arith, size), new ∙ ground arith)
      | inr n ↦
          let old : slot (insert fresh e st) j ≡ slot st j =
            slot-insert fresh e j st v.small ∙ rw n refl in
          let (low, own) = v.back j (rw old at there) in
          let kept : entity (insert fresh e st) (slot st j) ≡ entity st (slot st j) =
            entity-insert fresh e (slot st j) st v (omega arith)
            ∙ rw (ne→== (slot st j) (length st.dense) (omega arith)) refl in
          rw old (omega (arith, size), kept ∙ own)
    ];
    there = λ i low. elim (Bool-cases (i == length st.dense)) [
      | inl y ↦
          let own : entity (insert fresh e st) i ≡ e =
            entity-insert fresh e i st v (omega (arith, size)) ∙ rw y refl in
          rw own (slot-insert fresh e e st v.small ∙ rw (==_self e) (ground arith))
      | inr n ↦
          let kept : entity (insert fresh e st) i ≡ entity st i =
            entity-insert fresh e i st v (omega (arith, size)) ∙ rw n refl in
          let own : slot st (entity st i) ≡ i = v.there i (ground (arith, size)) in
          let other : e ≢ entity st i =
            λ q. omega (arith, own, free, size, room, low, ap (slot st) q) in
          rw kept
            (slot-insert fresh e (entity st i) st v.small ∙ rw (ne→== e (entity st i) other) own)
    ];
  }
    where
      size : length (insert fresh e st).dense ≡ suc (length st.dense)
      size = unfold insert in omega (arith, length-append st.dense (fresh ∷ []))
