-- ===== src/Sim/Snapshot/Delta/Budget.antt =====
-- NeuronCore/Snapshot.h, `BuildBudgetedSnapshot`: the prefix of the records that fits a datagram.
use earth_rise_game.Prelude.{
  ℕ, ◌+◌, ◌*◌, ◌/◌, ◌^◌, ◌≤◌, ◌<◌, ◌≡◌, refl, ap, ◌∙◌, max, Bool, true, false, List, [], ◌∷◌, ◌++◌,
  map, arith, length, ltb, ◌==◌, if◌then◌else◌, All, All-append, append-nil, Bool-cases, inl, inr,
}
use earth_rise_game.Serde.BitStream.RoundTrip.{Field, fields_bits}
use earth_rise_game.Serde.Parser.Sequence.{fields_of, fields_bits-append}
use earth_rise_game.Serde.Parser.Message.{length-message}
use earth_rise_game.Sim.Snapshot.Delta.{
  DeltaRecord, DeltaSnapshot, has, delta_pos, delta_sector, delta_hp, delta_shape, delta_owner,
  delta_kind, delta_tomb, delta_record_bits, delta_header_bits, encode_delta_snapshot,
}
use earth_rise_game.Sim.Snapshot.Delta.DeltaRoundTrip.{
  IsRecord, part, record_fields, changed_fields, sector_fields, pos_fields, hp_fields, shape_fields,
  owner_fields, kind_fields,
}
use earth_rise_game.Sim.Snapshot.Delta.DeltaMessage.{
  IsDeltaSnapshot, delta_fields, encode_delta_snapshot_lem, read_delta_snapshot-Parses,
}

-- The net ids of the records that have something to send.
unfoldable pub spilled : List DeltaRecord → List ℕ
spilled [] = []
spilled (r ∷ rs) = let rest = spilled rs in if r.mask == 0 then rest else r.net_id ∷ rest

-- The loop of `BuildBudgetedSnapshot` from the records that are left: the records that are kept, and
-- `overflow`.
unfoldable pub budget_loop : ℕ → List DeltaRecord → ℕ → List DeltaRecord → List DeltaRecord × List ℕ
budget_loop byte_budget [] bits kept = (kept, [])
budget_loop byte_budget (r ∷ rs) bits kept =
    let with_record = bits + delta_record_bits r in
    let skip = budget_loop byte_budget rs bits kept in
    let keep = budget_loop byte_budget rs with_record (kept ++ (r ∷ [])) in
    if r.mask == 0
    then skip
    else if ltb byte_budget ((with_record + 7) / 8)
    then (kept, spilled (r ∷ rs))
    else keep

-- `BuildBudgetedSnapshot`: the snapshot, and `overflow`.
unfoldable pub build_budgeted_snapshot : ℕ → List DeltaRecord → ℕ → DeltaSnapshot × List ℕ
build_budgeted_snapshot tick ordered byte_budget =
    let (kept, overflow) = budget_loop byte_budget ordered delta_header_bits [] in
    (record { tick = tick; records = kept }, overflow)

part_bits :
    (flag : Bool) (fs : List Field)
    → fields_bits (part flag fs []) ≡ (if flag then fields_bits fs else 0)
unfolding fields_bits
part_bits true fs = refl
part_bits false fs = refl

add_if : (flag : Bool) (n m : ℕ) → (if flag then n + m else n) ≡ n + (if flag then m else 0)
add_if true n m = refl
add_if false n m = omega arith

changed_bits :
    (r : DeltaRecord)
    → fields_bits (changed_fields r)
      ≡ (if has r.mask delta_sector then 96 else 0)
        + (if has r.mask delta_pos then 60 else 0)
        + (if has r.mask delta_hp then 32 else 0)
        + (if has r.mask delta_shape then 16 else 0)
        + (if has r.mask delta_owner then 32 else 0)
        + (if has r.mask delta_kind then 8 else 0)
unfolding fields_bits
changed_bits r =
    rw
      (
        fields_bits-append (sector_fields r) _,
        fields_bits-append (pos_fields r) _,
        fields_bits-append (hp_fields r) _,
        fields_bits-append (shape_fields r) _,
        fields_bits-append (owner_fields r) _,
        fields_bits-append (kind_fields r) [],
        part_bits (has r.mask delta_sector) _,
        part_bits (has r.mask delta_pos) _,
        part_bits (has r.mask delta_hp) _,
        part_bits (has r.mask delta_shape) _,
        part_bits (has r.mask delta_owner) _,
        part_bits (has r.mask delta_kind) _,
      )
      (omega arith)

-- DeltaRecordBits is the number of bits of the fields of a record.
fields_bits-record_fields : (r : DeltaRecord) → fields_bits (record_fields r) ≡ delta_record_bits r
unfolding fields_bits record_fields delta_record_bits
fields_bits-record_fields r = elim (Bool-cases (has r.mask delta_tomb)) [
  | inl e ↦ rw e (omega arith)
  | inr e ↦
      rw
        (
          e,
          changed_bits r,
          add_if (has r.mask delta_kind),
          add_if (has r.mask delta_owner),
          add_if (has r.mask delta_shape),
          add_if (has r.mask delta_hp),
          add_if (has r.mask delta_pos),
        )
        (omega (arith, add_if (has r.mask delta_sector) 40 96))
]

abbrev total : List DeltaRecord → ℕ
total rs = fields_bits (fields_of record_fields rs)

total-append :
    (rs : List DeltaRecord) (r : DeltaRecord)
    → total (rs ++ (r ∷ [])) ≡ total rs + delta_record_bits r
total-append [] r =
    let one : total (r ∷ []) ≡ delta_record_bits r =
      rw (append-nil (record_fields r)) (fields_bits-record_fields r) in
    let no_fields : total [] ≡ 0 = unfold fields_bits in refl in omega (arith, one, no_fields)
total-append (x ∷ rs) r =
    fields_bits-append (record_fields x) (fields_of record_fields (rs ++ (r ∷ [])))
    ∙ omega (
      arith,
      total-append rs r,
      fields_bits-append (record_fields x) (fields_of record_fields rs),
    )

-- What holds of the records kept so far, with `rest` still to be looked at.
record Fitting (byte_budget : ℕ) (kept : List DeltaRecord) : Type 0 where
  within : (delta_header_bits + total kept + 7) / 8 ≤ max byte_budget 10
  all : All IsRecord kept

budget_step :
    (byte_budget : ℕ) (r : DeltaRecord) (rs : List DeltaRecord) (bits : ℕ) (kept : List DeltaRecord)
    → budget_loop byte_budget (r ∷ rs) bits kept ≡ (
        if r.mask == 0
        then budget_loop byte_budget rs bits kept
        else if ltb byte_budget ((bits + delta_record_bits r + 7) / 8)
        then (kept, spilled (r ∷ rs))
        else budget_loop byte_budget rs (bits + delta_record_bits r) (kept ++ (r ∷ [])))
unfolding budget_loop
budget_step byte_budget r rs bits kept = refl

budget_loop-Fitting :
    (byte_budget : ℕ) (rs : List DeltaRecord) (bits : ℕ) (kept : List DeltaRecord)
    → bits ≡ delta_header_bits + total kept
    → Fitting byte_budget kept
    → All IsRecord rs
    → Fitting byte_budget (budget_loop byte_budget rs bits kept).0
unfolding budget_loop
budget_loop-Fitting byte_budget [] bits kept e f v = f
budget_loop-Fitting byte_budget (r ∷ rs) bits kept e f v =
    let skip = budget_loop-Fitting byte_budget rs bits kept e f v.1 in
    let keep = λ (small : (bits + delta_record_bits r + 7) / 8 ≤ byte_budget).
      budget_loop-Fitting byte_budget rs (bits + delta_record_bits r) (kept ++ (r ∷ []))
        (omega (arith, total-append kept r, e))
        (record {
          within = omega (arith, total-append kept r, e, small);
          all = All-append IsRecord kept (r ∷ []) f.all (v.0, tt);
        })
        v.1 in
    elim (Bool-cases (r.mask == 0)) [
      | inl z ↦ rw z skip
      | inr z ↦ elim (Bool-cases (ltb byte_budget ((bits + delta_record_bits r + 7) / 8))) [
        | inl full ↦ rw (z, full) f
        | inr room ↦ rw (z, room) (keep (ground arith))
      ]
    ]

abbrev ids : List DeltaRecord → List ℕ
ids rs = map (λ (r : DeltaRecord). r.net_id) rs

budget_loop-ids :
    (byte_budget : ℕ) (rs : List DeltaRecord) (bits : ℕ) (kept : List DeltaRecord)
    → let (kept', overflow) = budget_loop byte_budget rs bits kept in
      ids kept' ++ overflow ≡ ids kept ++ spilled rs
unfolding budget_loop spilled
budget_loop-ids byte_budget [] bits kept = refl
budget_loop-ids byte_budget (r ∷ rs) bits kept =
    let skip = budget_loop-ids byte_budget rs bits kept in
    let keep = budget_loop-ids byte_budget rs (bits + delta_record_bits r) (kept ++ (r ∷ [])) in
    elim (Bool-cases (r.mask == 0)) [
      | inl z ↦ rw z skip
      | inr z ↦ elim (Bool-cases (ltb byte_budget ((bits + delta_record_bits r + 7) / 8))) [
        | inl full ↦ rw (z, full) refl
        | inr room ↦ rw (z, room) (keep ∙ moved kept r (spilled rs))
      ]
    ]
  where
    moved :
        (kept : List DeltaRecord) (r : DeltaRecord) (xs : List ℕ)
        → ids (kept ++ (r ∷ [])) ++ xs ≡ ids kept ++ (r.net_id ∷ xs)
    moved [] r xs = refl
    moved (k ∷ kept) r xs = ap (λ (t : List ℕ). k.net_id ∷ t) (moved kept r xs)

many : (rs : List DeltaRecord) → length rs * 40 ≤ total rs
many [] = omega arith
many (r ∷ rs) =
    omega (
      arith,
      many rs,
      fields_bits-append (record_fields r) (fields_of record_fields rs),
      at_least r,
    )
  where
    at_least : (r : DeltaRecord) → 40 ≤ fields_bits (record_fields r)
    at_least r = unfold fields_bits record_fields in omega arith

encoded_size :
    (snap : DeltaSnapshot)
    → IsDeltaSnapshot snap
    → length (encode_delta_snapshot snap) ≡ (delta_header_bits + total snap.records + 7) / 8
encoded_size snap v =
    let bits : fields_bits (delta_fields snap) ≡ 48 + total snap.records =
      unfold delta_fields fields_bits in omega arith in
    rw
      (
        encode_delta_snapshot_lem snap v.count,
        length-message (delta_fields snap) (read_delta_snapshot-Parses snap v).fit,
        bits,
      )
      (omega arith)

-- What BuildBudgetedSnapshot adds up for the records.
abbrev pub record_bits : List DeltaRecord → ℕ
record_bits [] = 0
record_bits (r ∷ rs) = delta_record_bits r + record_bits rs

total_lem : (rs : List DeltaRecord) → total rs ≡ record_bits rs
total_lem [] = unfold fields_bits in refl
total_lem (r ∷ rs) =
    fields_bits-append (record_fields r) (fields_of record_fields rs)
    ∙ omega (arith, fields_bits-record_fields r, total_lem rs)

-- For a 32-bit tick and fewer than 2 ^ 16 records, whose sectors fit 32 bits, whose quantized
-- positions fit 20 bits and whose other fields fit their types: the bytes that EncodeDeltaSnapshot
-- makes are exactly as many as the bits of the header and the DeltaRecordBits of each record need,
-- so the cost that BuildBudgetedSnapshot adds up is what WriteDeltaRecord writes.
pub length-encode_delta_snapshot :
    (snap : DeltaSnapshot)
    → IsDeltaSnapshot snap
    → length (encode_delta_snapshot snap) ≡ (delta_header_bits + record_bits snap.records + 7) / 8
length-encode_delta_snapshot snap v = encoded_size snap v ∙ rw (total_lem snap.records) refl

-- For a 32-bit tick, a byte budget below 2 ^ 16 and records whose sectors fit 32 bits, whose
-- quantized positions fit 20 bits and whose other fields fit their types: the encoded snapshot is
-- never longer than the budget, or than the 10 bytes of a snapshot without records; and the net ids
-- that it holds, followed by the overflow, are those of all records that have something to send, in
-- order, so that none is dropped.
pub build_budgeted_snapshot_lem :
    (tick : ℕ) (ordered : List DeltaRecord) (byte_budget : ℕ)
    → tick < 2 ^ 32
    → byte_budget < 2 ^ 16
    → All IsRecord ordered
    → let (snap, overflow) = build_budgeted_snapshot tick ordered byte_budget in
      (length (encode_delta_snapshot snap) ≤ max byte_budget 10)
      × (map (λ r. r.net_id) snap.records ++ overflow ≡ spilled ordered)
unfolding build_budgeted_snapshot
build_budgeted_snapshot_lem tick ordered byte_budget t small v =
    let start : Fitting byte_budget [] = record { within = nothing; all = tt } in
    let f =
      budget_loop-Fitting byte_budget ordered delta_header_bits [] (unfold fields_bits in refl)
        start v in
    (sized _ f, budget_loop-ids byte_budget ordered delta_header_bits [])
  where
    nothing : (delta_header_bits + total [] + 7) / 8 ≤ max byte_budget 10
    nothing = unfold fields_bits in omega arith

    sized :
        (kept : List DeltaRecord)
        → Fitting byte_budget kept
        → length (encode_delta_snapshot (record { tick = tick; records = kept }))
          ≤ max byte_budget 10
    sized kept f =
        let few : length kept < 2 ^ 16 = omega (arith, many kept, f.within) in
        rw (encoded_size _ (record { tick = t; count = few; records = f.all })) f.within
