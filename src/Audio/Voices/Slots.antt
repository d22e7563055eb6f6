-- ===== src/Audio/Voices/Slots.antt =====
-- Which handles resolve, and what the writes to one slot make of it.
use native.Mathlib.Nat.{mod-eq_of_lt}
use earth_rise_game.Prelude.{
  ℕ, ◌+◌, ◌*◌, ◌-◌, ◌/◌, ◌%◌, ◌^◌, ◌<◌, ◌≡◌, refl, ap, sym, ◌∙◌, bit_and, Bool, true, false, not,
  ◌&&◌, ◌||◌, List, Option, none, some, leb, ◌==◌, arith, length, set, get_or-set_self,
  get_or-set_ne, Bool-cases, inl, inr, ==→eq,
}
use earth_rise_game.Prelude.Bits.{bit_or_comm, bit_or_disjoint}
use earth_rise_game.Prelude.Mask.{bit_and_mask}
use earth_rise_game.Prelude.Vectors.{get_or_out}
use earth_rise_game.Audio.Voices.{
  VoiceSlot, new_slot, slot_at, make_voice_id, voice_index, voice_generation, resolve,
}

pub voice_index_lem : (id : ℕ) → voice_index id ≡ id % 2 ^ 20
unfolding voice_index
voice_index_lem id = bit_and_mask 20 id

pub voice_generation_lem : (id : ℕ) → id < 2 ^ 32 → voice_generation id ≡ id / 2 ^ 20
unfolding voice_generation
voice_generation_lem id h = bit_and_mask 12 (id / 2 ^ 20) ∙ mod-eq_of_lt (omega arith)

pub make_voice_id_lem :
    (i gen : ℕ) → i < 2 ^ 20 → gen < 2 ^ 12 → make_voice_id i gen ≡ gen * 2 ^ 20 + i
unfolding make_voice_id
make_voice_id_lem i gen h k =
    let low : bit_and i (2 ^ 20 - 1) ≡ i = bit_and_mask 20 i ∙ mod-eq_of_lt h in
    let high : bit_and gen (2 ^ 12 - 1) ≡ gen = bit_and_mask 12 gen ∙ mod-eq_of_lt k in
    let whole : gen * 2 ^ 20 % 2 ^ 32 ≡ gen * 2 ^ 20 = omega arith in
    rw (low, high, whole, bit_or_comm i (gen * 2 ^ 20)) (bit_or_disjoint 20 gen i h)

abbrev pub is_some {ℓ} : {A : Type ℓ} → Option A → Bool
is_some none = false
is_some (some x) = true

module _ {ℓ} {V : Type ℓ} where
  -- Whether a handle plays: it resolves.
  abbrev pub plays : ℕ → List (VoiceSlot V) → Bool
  plays id slots = is_some (resolve id slots)

  -- The same, from the slot.
  abbrev pub sounds : ℕ → List (VoiceSlot V) → Bool
  sounds id slots =
      not (id == 0)
      && ((slot_at slots (id % 2 ^ 20)).busy
          && ((slot_at slots (id % 2 ^ 20)).generation == id / 2 ^ 20))

  pub plays_lem :
      (id : ℕ) (slots : List (VoiceSlot V)) → id < 2 ^ 32 → plays id slots ≡ sounds id slots
  unfolding resolve
  plays_lem id slots h =
      rw (voice_index_lem id, voice_generation_lem id h)
        (elim (Bool-cases (leb (length slots) (id % 2 ^ 20))) [
          | inl out ↦
              let idle : slot_at slots (id % 2 ^ 20) ≡ new_slot =
                get_or_out slots (id % 2 ^ 20) new_slot (ground arith) in
              rw (out, idle) (ground arith)
          | inr there ↦ rw there (ground arith)
        ])

  -- A free slot becomes busy: its handle plays.
  pub started :
      (h : ℕ) (slots : List (VoiceSlot V)) (i : ℕ) (s : VoiceSlot V)
      → h < 2 ^ 32
      → i < length slots
      → i < 2 ^ 20
      → 0 < s.generation
      → s.generation < 2 ^ 12
      → s.busy ≡ true
      → (slot_at slots i).busy ≡ false
      → sounds h (set slots i s) ≡ (h == make_voice_id i s.generation || sounds h slots)
  started h slots i s small low few p g on off = elim (Bool-cases (i == h % 2 ^ 20)) [
    | inl y ↦
        let q : i ≡ h % 2 ^ 20 = ==→eq i (h % 2 ^ 20) y in
        let new = get_or-set_self slots i s new_slot low in
        rw (sym q, new, off, on, make_voice_id_lem i s.generation few g) (ground arith)
    | inr n ↦
        let old = get_or-set_ne slots i (h % 2 ^ 20) s new_slot (ground arith) in
        rw (old, make_voice_id_lem i s.generation few g) (ground arith)
  ]

  -- A slot that is not busy, before and after, changes nothing.
  pub idle_write :
      (h : ℕ) (slots : List (VoiceSlot V)) (i : ℕ) (s : VoiceSlot V)
      → i < length slots
      → s.busy ≡ false
      → (slot_at slots i).busy ≡ false
      → sounds h (set slots i s) ≡ sounds h slots
  idle_write h slots i s low on off = elim (Bool-cases (i == h % 2 ^ 20)) [
    | inl y ↦
        let q : i ≡ h % 2 ^ 20 = ==→eq i (h % 2 ^ 20) y in
        let new = get_or-set_self slots i s new_slot low in rw (sym q, new, off, on) refl
    | inr n ↦ let old = get_or-set_ne slots i (h % 2 ^ 20) s new_slot (ground arith) in rw old refl
  ]

  pub sounds_low :
      (id : ℕ) (slots : List (VoiceSlot V)) → sounds id slots ≡ true → id % 2 ^ 20 < length slots
  sounds_low id slots live = elim (Bool-cases (leb (length slots) (id % 2 ^ 20))) [
    | inl out ↦
        let idle : slot_at slots (id % 2 ^ 20) ≡ new_slot =
          get_or_out slots (id % 2 ^ 20) new_slot (ground arith) in
        absurd (ground (arith, live, ap (λ (r : VoiceSlot V). r.busy) idle))
    | inr there ↦ ground arith
  ]

  -- A slot stops: the handle that played it does not, and every other one as before.
  pub stopped :
      (h id : ℕ) (slots : List (VoiceSlot V)) (s : VoiceSlot V)
      → sounds id slots ≡ true
      → s.busy ≡ false
      → sounds h (set slots (id % 2 ^ 20) s) ≡ (not (h == id) && sounds h slots)
  stopped h id slots s live off = elim (Bool-cases (id % 2 ^ 20 == h % 2 ^ 20)) [
    | inl y ↦
        let q : id % 2 ^ 20 ≡ h % 2 ^ 20 = ==→eq (id % 2 ^ 20) (h % 2 ^ 20) y in
        let new = get_or-set_self slots (id % 2 ^ 20) s new_slot (sounds_low id slots live) in
        rw (sym q, new, off) (ground (arith, live, q))
    | inr n ↦
        let old = get_or-set_ne slots (id % 2 ^ 20) (h % 2 ^ 20) s new_slot (ground arith) in
        rw old (ground arith)
  ]
