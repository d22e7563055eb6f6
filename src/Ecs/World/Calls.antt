-- ===== src/Ecs/World/Calls.antt =====
-- `ForEach` with the calls of its function.
use earth_rise_game.Prelude.{
  ℕ, suc, ◌+◌, ◌-◌, ◌%◌, ◌^◌, ◌<◌, ◌≡◌, refl, ap, ◌∙◌, not, List, [], ◌∷◌, ◌==◌, if◌then◌else◌,
  arith, length, get_or, bit_and, Bool-cases, inl, inr,
}
use earth_rise_game.Ecs.World.{
  World, EntityRecord, new_record, record_at, visited, for_each, for_each_loop, for_each_calls,
}

module _ {ℓ} {A : Type ℓ} where
  -- The function called at each of the indices in turn.
  abbrev pub call_all : (ℕ → World A → World A) → List ℕ → World A → World A
  call_all fn [] w = w
  call_all fn (i ∷ is) w = call_all fn is (fn i w)

  module _ (fn : ℕ → World A → World A)
      (keeps : (i : ℕ) (w : World A) → (fn i w).records ≡ w.records) (required : ℕ) where
    -- The records from `idx` on are those of the list.
    abbrev Ahead : ℕ → List EntityRecord → World A → Type 0
    Ahead idx rs w = (k : ℕ) → record_at w (idx + k) ≡ get_or rs k new_record

    Ahead-next :
        (idx : ℕ) (rec : EntityRecord) (rs : List EntityRecord) (w : World A)
        → Ahead idx (rec ∷ rs) w
        → Ahead (suc idx) rs w
    Ahead-next idx rec rs w ahead k =
        let next : suc idx + k ≡ idx + suc k = omega arith in ap (record_at w) next ∙ ahead (suc k)

    Ahead-same :
        (idx : ℕ) (rs : List EntityRecord) (w v : World A)
        → v.records ≡ w.records
        → Ahead idx rs w
        → Ahead idx rs v
    Ahead-same idx rs w v e ahead k =
        ap (λ (t : List EntityRecord). get_or t (idx + k) new_record) e ∙ ahead k

    -- One round of the loop, at a record.
    round : EntityRecord → ℕ → World A → World A
    round rec idx w =
        if not rec.alive
        then w
        else if not (bit_and rec.component_mask required == required)
        then w
        else fn idx w

    for_each_loop_step :
        (rounds idx : ℕ) (w : World A)
        → for_each_loop fn required (suc rounds) idx w
          ≡ for_each_loop fn required rounds (suc idx) (round (record_at w idx) idx w)
    unfolding for_each_loop round
    for_each_loop_step rounds idx w = refl

    -- The loop from the rounds behind it.
    round_lem :
        (rec : EntityRecord) (rs : List EntityRecord) (idx : ℕ) (w : World A)
        → ((v : World A)
            → v.records ≡ w.records
            → for_each_loop fn required (length rs) (suc idx) v
              ≡ call_all fn (visited required rs (suc idx)) v)
        → for_each_loop fn required (length rs) (suc idx) (round rec idx w)
          ≡ call_all fn (visited required (rec ∷ rs) idx) w
    unfolding round visited
    round_lem rec rs idx w rest = elim (Bool-cases (not rec.alive)) [
      | inl dead ↦ rw dead (rest w refl)
      | inr lives ↦ elim (Bool-cases (not (bit_and rec.component_mask required == required))) [
        | inl lacks ↦ rw (lives, lacks) (rest w refl)
        | inr has ↦ rw (lives, has) (rest (fn idx w) (keeps idx w))
      ]
    ]

    for_each_loop_lem :
        (rs : List EntityRecord) (idx : ℕ) (w : World A)
        → Ahead idx rs w
        → for_each_loop fn required (length rs) idx w ≡ call_all fn (visited required rs idx) w
    for_each_loop_lem [] idx w ahead = unfold for_each_loop visited in refl
    for_each_loop_lem (rec ∷ rs) idx w ahead =
        let same : idx + 0 ≡ idx = omega arith in
        let here : record_at w idx ≡ rec = rw same at (ahead 0) in
        let later : Ahead (suc idx) rs w = Ahead-next idx rec rs w ahead in
        for_each_loop_step (length rs) idx w
        ∙ ap (λ (r : EntityRecord). for_each_loop fn required (length rs) (suc idx) (round r idx w))
            here
        ∙ round_lem rec rs idx w
            (λ v e. for_each_loop_lem rs (suc idx) v (Ahead-same (suc idx) rs w v e later))

    -- With a function that may change components but leaves the entity records as they are, and
    -- with fewer than 2 ^ 32 records, ForEach calls the function once at each of the indices that
    -- are visited, in their order, each call in the world that the one before it has left.
    pub for_each_calls_lem :
        (w : World A)
        → length w.records < 2 ^ 32
        → for_each_calls fn required w ≡ call_all fn (for_each required w) w
    unfolding for_each_calls for_each
    for_each_calls_lem w small =
        let rounds : length w.records % 2 ^ 32 - 1 ≡ length w.records - 1 = omega arith in
        rw rounds (walked w.records (λ k. ap (record_at w) (from_zero k)))
      where
        from_zero : (k : ℕ) → 0 + k ≡ k
        from_zero k = omega arith

        walked :
            (rs : List EntityRecord)
            → Ahead 0 rs w
            → for_each_loop fn required (length rs - 1) 1 w
              ≡ call_all fn (elim rs [ [] ↦ [] | first ∷ records ↦ visited required records 1 ]) w
        walked [] ahead = unfold for_each_loop in refl
        walked (first ∷ records) ahead =
            let count : suc (length records) - 1 ≡ length records = omega arith in
            rw count (for_each_loop_lem records 1 w (Ahead-next 0 first records w ahead))
