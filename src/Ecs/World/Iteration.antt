-- ===== src/Ecs/World/Iteration.antt =====
-- What `ForEach` visits.
use earth_rise_game.Prelude.{
  ℕ, zero, suc, ◌+◌, ◌≤◌, ◌<◌, ◌≡◌, refl, ap, ◌∙◌, Bool, false, ◌&&◌, List, [], ◌∷◌, ltb, ◌==◌,
  if◌then◌else◌, arith, get_or, bit_and, Bool-cases, inl, inr,
}
use earth_rise_game.Prelude.Sets.{contains}
use earth_rise_game.Ecs.World.{World, EntityRecord, new_record, record_at, visited, for_each}

-- The record lives, and has all the components.
abbrev wanted : ℕ → EntityRecord → Bool
wanted required rec = rec.alive && (bit_and rec.component_mask required == required)

-- The numbers ascend from `n` on.
abbrev pub AscendingFrom : ℕ → List ℕ → Type 0
AscendingFrom n [] = Unit
AscendingFrom n (x ∷ xs) = (n ≤ x) × AscendingFrom (suc x) xs

later : (n : ℕ) (xs : List ℕ) → AscendingFrom (suc n) xs → AscendingFrom n xs
later n [] a = tt
later n (x ∷ xs) a = (omega (arith, a.0), a.1)

visited_step :
    (required : ℕ) (rec : EntityRecord) (records : List EntityRecord) (idx : ℕ)
    → visited required (rec ∷ records) idx ≡ (
        if wanted required rec
        then idx ∷ visited required records (suc idx)
        else visited required records (suc idx))
unfolding visited
visited_step required rec records idx = ground arith

visited-Ascending :
    (required : ℕ) (records : List EntityRecord) (idx : ℕ)
    → AscendingFrom idx (visited required records idx)
unfolding visited
visited-Ascending required [] idx = tt
visited-Ascending required (rec ∷ records) idx =
    let rest = visited-Ascending required records (suc idx) in
    rw (visited_step required rec records idx) (elim (Bool-cases (wanted required rec)) [
      | inl y ↦ rw y (omega arith, rest)
      | inr n ↦ rw n (later idx _ rest)
    ])

below_none :
    (i idx required : ℕ) (records : List EntityRecord)
    → i < idx
    → contains i (visited required records idx) ≡ false
unfolding visited contains
below_none i idx required [] h = refl
below_none i idx required (rec ∷ records) h =
    rw (visited_step required rec records idx) (elim (Bool-cases (wanted required rec)) [
      | inl y ↦ rw y (ground (arith, below_none i (suc idx) required records (omega arith)))
      | inr n ↦ rw n (below_none i (suc idx) required records (omega arith))
    ])

contains-visited :
    (k idx required : ℕ) (records : List EntityRecord)
    → contains (idx + k) (visited required records idx)
      ≡ wanted required (get_or records k new_record)
unfolding visited contains
contains-visited k idx required [] = refl
contains-visited zero idx required (rec ∷ records) =
    let here : idx + 0 ≡ idx = omega arith in
    rw (here, visited_step required rec records idx)
      (elim (Bool-cases (wanted required rec)) [
        | inl y ↦ rw y (ground arith)
        | inr n ↦ rw n (below_none idx (suc idx) required records (omega arith))
      ])
contains-visited (suc k) idx required (rec ∷ records) =
    let next : idx + suc k ≡ suc idx + k = omega arith in
    let rest = contains-visited k (suc idx) required records in
    rw (next, visited_step required rec records idx)
      (elim (Bool-cases (wanted required rec)) [
        | inl y ↦ rw y (ground (arith, rest))
        | inr n ↦ rw n rest
      ])

nothing : (i : ℕ) → contains i [] ≡ false
unfolding contains
nothing i = refl

inside :
    (required : ℕ) (first : EntityRecord) (records : List EntityRecord) (i : ℕ)
    → contains i (visited required records 1)
      ≡ (ltb 0 i && wanted required (get_or (first ∷ records) i new_record))
inside required first records zero = below_none 0 1 required records (omega arith)
inside required first records (suc i) =
    let next : suc i ≡ 1 + i = omega arith in
    ap (λ (n : ℕ). contains n (visited required records 1)) next
    ∙ contains-visited i 1 required records
    ∙ ground arith

module _ {ℓ} {A : Type ℓ} where
  -- ForEach visits indices in ascending order, never that of the null entity, and exactly those of the
  -- living records that have all the required components.
  pub for_each_lem :
      (required : ℕ) (w : World A)
      → AscendingFrom 1 (for_each required w)
        × ((i : ℕ)
            → contains i (for_each required w) ≡ (
                ltb 0 i
                && ((record_at w i).alive
                    && (bit_and (record_at w i).component_mask required == required))))
  unfolding for_each
  for_each_lem required w = walked w.records
    where
      walked :
          (rs : List EntityRecord)
          → let visits : List ℕ = elim rs [
            | [] ↦ []
            | first ∷ records ↦ visited required records 1
          ] in
            AscendingFrom 1 visits
            × ((i : ℕ) → contains i visits ≡ (ltb 0 i && wanted required (get_or rs i new_record)))
      walked [] = (tt, λ i. nothing i ∙ ground arith)
      walked (first ∷ records) =
          (visited-Ascending required records 1, λ i. inside required first records i)
