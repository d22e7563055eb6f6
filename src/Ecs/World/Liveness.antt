-- ===== src/Ecs/World/Liveness.antt =====
-- Whether the records of a world have a living entity of a handle.
use earth_rise_game.Prelude.{
  ℕ, ◌/◌, ◌%◌, ◌^◌, ◌≤◌, ◌<◌, ◌≡◌, ap, sym, Bool, true, false, not, ◌&&◌, ◌||◌, List, [], ◌∷◌, ◌++◌,
  leb, ◌==◌, arith, length, get_or, set, get_or-set_self, get_or-set_ne, Bool-cases, inl, inr,
  ==→eq,
}
use earth_rise_game.Prelude.Sets.{contains}
use earth_rise_game.Prelude.Vectors.{get_or_out, get_or-append_replicate}
use earth_rise_game.Ecs.{EntityHandle, make}
use earth_rise_game.Ecs.Handles.{index_lem, generation_lem, make_lem}
use earth_rise_game.Ecs.World.{EntityRecord, new_record, World, is_alive}

abbrev pub at : List EntityRecord → ℕ → EntityRecord
at rs i = get_or rs i new_record

-- Whether the records have an entity of the handle.
abbrev pub lives : EntityHandle → List EntityRecord → Bool
lives h rs =
    let i = h.value % 2 ^ 20 in
    not (i == 0) && ((at rs i).alive && ((at rs i).generation == h.value / 2 ^ 20))

pub is_alive_lem {ℓ} :
    {A : Type ℓ} (h : EntityHandle) (w : World A) → is_alive h w ≡ lives h w.records
unfolding is_alive
is_alive_lem h w =
    rw (index_lem h, generation_lem h)
      (elim (Bool-cases (leb (length w.records) (h.value % 2 ^ 20))) [
        | inl out ↦
            let none : at w.records (h.value % 2 ^ 20) ≡ new_record =
              get_or_out w.records (h.value % 2 ^ 20) new_record (ground arith) in
            rw (out, none) (ground arith)
        | inr there ↦ rw there (ground arith)
      ])

pub activate :
    (h : EntityHandle) (rs : List EntityRecord) (idx mask : ℕ)
    → 0 < idx
    → idx < length rs
    → length rs ≤ 2 ^ 20
    → (at rs idx).generation < 2 ^ 12
    → (at rs idx).alive ≡ false
    → lives h (set rs idx (record (at rs idx) { alive = true; component_mask = mask }))
      ≡ (h.value == (make idx (at rs idx).generation).value || lives h rs)
activate h rs idx mask p low few g dead = elim (Bool-cases (idx == h.value % 2 ^ 20)) [
  | inl y ↦
      let q : idx ≡ h.value % 2 ^ 20 = ==→eq idx (h.value % 2 ^ 20) y in
      let new =
        get_or-set_self rs idx (record (at rs idx) { alive = true; component_mask = mask })
          new_record low in
      rw (sym q, new, dead, make_lem idx (at rs idx).generation (omega arith) g) (ground arith)
  | inr n ↦
      let old =
        get_or-set_ne rs idx (h.value % 2 ^ 20)
          (record (at rs idx) { alive = true; component_mask = mask }) new_record (ground arith) in
      rw (old, make_lem idx (at rs idx).generation (omega arith) g) (ground arith)
]

pub lives_low :
    (e : EntityHandle) (rs : List EntityRecord)
    → lives e rs ≡ true
    → (0 < e.value % 2 ^ 20) × (e.value % 2 ^ 20 < length rs)
lives_low e rs live = elim (Bool-cases (leb (length rs) (e.value % 2 ^ 20))) [
  | inl out ↦
      let none : at rs (e.value % 2 ^ 20) ≡ new_record =
        get_or_out rs (e.value % 2 ^ 20) new_record (ground arith) in
      absurd (ground (arith, live, ap (λ (r : EntityRecord). r.alive) none))
  | inr there ↦ (ground (arith, live), ground arith)
]

pub deactivate :
    (h e : EntityHandle) (rs : List EntityRecord) (r : EntityRecord)
    → lives e rs ≡ true
    → r.alive ≡ false
    → lives h (set rs (e.value % 2 ^ 20) r) ≡ (not (h.value == e.value) && lives h rs)
deactivate h e rs r live dead = elim (Bool-cases (e.value % 2 ^ 20 == h.value % 2 ^ 20)) [
  | inl y ↦
      let q : e.value % 2 ^ 20 ≡ h.value % 2 ^ 20 = ==→eq (e.value % 2 ^ 20) (h.value % 2 ^ 20) y in
      let new = get_or-set_self rs (e.value % 2 ^ 20) r new_record (lives_low e rs live).1 in
      rw (sym q, new, dead) (ground (arith, live, q))
  | inr n ↦
      let old =
        get_or-set_ne rs (e.value % 2 ^ 20) (h.value % 2 ^ 20) r new_record (ground arith) in
      rw old (ground arith)
]

pub no_member : (i : ℕ) → contains i [] ≡ true → ⊥
no_member i h = unfold contains in ground arith

pub appended : (rs : List EntityRecord) (i : ℕ) → at (rs ++ (new_record ∷ [])) i ≡ at rs i
appended rs i = get_or-append_replicate rs 1 i new_record
