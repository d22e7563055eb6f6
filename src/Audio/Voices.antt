-- ===== src/Audio/Voices.antt =====
-- NeuronAudio/VoicePool.cpp with VoiceHandle.h: the pool of source voices. A voice of the device is a value
-- of `V`; what the device answers is an argument of the operations. Of a slot, the bus, the emitter and the
-- volumes are left out, which only the engine reads.
pub mod Slots
pub mod Pool
mod Examples
use earth_rise_game.Prelude.{
  ℕ, zero, suc, ◌+◌, ◌*◌, ◌-◌, ◌/◌, ◌%◌, ◌^◌, bit_and, bit_or, Bool, true, false, not, ◌&&◌, ◌||◌,
  List, [], ◌∷◌, ◌++◌, Option, none, some, leb, ◌==◌, if◌then◌else◌, length, get_or, set,
}

abbrev pub voice_index_bits : ℕ
voice_index_bits = 20

abbrev pub voice_index_mask : ℕ
voice_index_mask = 2 ^ voice_index_bits - 1

abbrev pub voice_generation_mask : ℕ
voice_generation_mask = 2 ^ (32 - voice_index_bits) - 1

-- `makeVoiceId`. A `VoiceId` is its number, and 0 is the null handle.
unfoldable pub make_voice_id : ℕ → ℕ → ℕ
make_voice_id index generation =
    bit_or (bit_and index voice_index_mask)
      (bit_and generation voice_generation_mask * 2 ^ voice_index_bits % 2 ^ 32)

-- `voiceIndex`.
unfoldable pub voice_index : ℕ → ℕ
voice_index id = bit_and id voice_index_mask

-- `voiceGeneration`.
unfoldable pub voice_generation : ℕ → ℕ
voice_generation id = bit_and (id / 2 ^ voice_index_bits) voice_generation_mask

-- The fields of `WAVEFORMATEX` that `formatMatches` compares.
pub record Format : Type 0 where
  pub tag : ℕ
  pub channels : ℕ
  pub samples_per_sec : ℕ
  pub bits_per_sample : ℕ

-- `formatMatches`.
unfoldable pub format_matches : Format → Format → Bool
format_matches a b =
    (a.tag == b.tag)
    && ((a.channels == b.channels)
        && ((a.samples_per_sec == b.samples_per_sec) && (a.bits_per_sample == b.bits_per_sample)))

-- What the loop of `acquire` finds: a slot to use again, or `freeAnyVoiceless` and `freeAnyMismatch`.
pub data Search : Type 0 where
  reuse : ℕ → Search
  no_match : Option ℕ → Option ℕ → Search

abbrev first_of : Option ℕ → ℕ → Option ℕ
first_of none i = some i
first_of (some j) i = some j

-- `struct VoiceSlot`.
pub record VoiceSlot {ℓ} (V : Type ℓ) : Type ℓ where
  pub voice : Option V
  pub format : Format
  pub generation : ℕ
  pub busy : Bool
  pub looping : Bool
  pub is3d : Bool

module _ {ℓ} {V : Type ℓ} where
  abbrev pub new_slot : VoiceSlot V
  new_slot = record {
    voice = none;
    format = record { tag = 0; channels = 0; samples_per_sec = 0; bits_per_sample = 0 };
    generation = 1;
    busy = false;
    looping = false;
    is3d = false;
  }

  abbrev pub slot_at : List (VoiceSlot V) → ℕ → VoiceSlot V
  slot_at slots i = get_or slots i new_slot

  -- `freeSlotState`.
  unfoldable pub free_slot_state : VoiceSlot V → VoiceSlot V
  free_slot_state slot =
      let next = bit_and (slot.generation + 1) voice_generation_mask in
      record slot {
        busy = false;
        looping = false;
        is3d = false;
        generation = if next == 0 then 1 else next;
      }

  -- `resolve`: the index of the slot that the pointer points to.
  unfoldable pub resolve : ℕ → List (VoiceSlot V) → Option ℕ
  resolve id slots =
      if id == 0
      then none
      else if leb (length slots) (voice_index id)
      then none
      else if not (slot_at slots (voice_index id)).busy
          || not ((slot_at slots (voice_index id)).generation == voice_generation id)
      then none
      else some (voice_index id)

  -- `release`.
  unfoldable pub release : ℕ → List (VoiceSlot V) → List (VoiceSlot V)
  release id slots = elim (resolve id slots) [
    | none ↦ slots
    | some i ↦ set slots i (free_slot_state (slot_at slots i))
  ]

  -- A round of `reclaimFinished`: a busy slot that does not loop is freed if its voice has no buffers queued.
  unfoldable pub reclaim_slot : (V → ℕ) → VoiceSlot V → VoiceSlot V
  reclaim_slot queued slot = if not slot.busy || slot.looping then slot else elim slot.voice [
    | none ↦ slot
    | some v ↦ if queued v == 0 then free_slot_state slot else slot
  ]

  -- `reclaimFinished`: the number of voices that are still active, and the slots. `queued` is the
  -- `BuffersQueued` of the device.
  unfoldable pub reclaim_finished : (V → ℕ) → List (VoiceSlot V) → ℕ × List (VoiceSlot V)
  reclaim_finished queued [] = (0, [])
  reclaim_finished queued (slot ∷ slots) =
      let (active, rest) = reclaim_finished queued slots in
      let slot' = reclaim_slot queued slot in
      (if slot'.busy then active + 1 else active, slot' ∷ rest)

  -- The loop of `acquire` from slot `i` on. `routed` is whether `SetOutputVoices` of a voice succeeds.
  unfoldable pub search :
      (V → Bool) → Format → List (VoiceSlot V) → ℕ → Option ℕ → Option ℕ → Search
  search routed format [] i voiceless mismatch = no_match voiceless mismatch
  search routed format (slot ∷ slots) i voiceless mismatch =
      let skip = search routed format slots (suc i) voiceless mismatch in
      let empty = search routed format slots (suc i) (first_of voiceless i) mismatch in
      let other = search routed format slots (suc i) voiceless (first_of mismatch i) in
      if slot.busy then skip else elim slot.voice [
        | none ↦ empty
        | some v ↦
            if not (format_matches slot.format format)
            then other
            else if routed v
            then reuse i
            else skip
      ]

  -- The slot that `acquire` makes a voice for, and the slots with it: a free one without a voice, or else
  -- one with a voice of another format, or else a new one.
  unfoldable pub target : Option ℕ → Option ℕ → List (VoiceSlot V) → ℕ × List (VoiceSlot V)
  target (some i) mismatch slots = (i, slots)
  target none (some i) slots = (i, slots)
  target none none slots = (length slots, slots ++ (new_slot ∷ []))

  -- The rest of `acquire` for that slot. `created` is the voice that `CreateSourceVoice` makes, if it does.
  unfoldable pub make_voice :
      Option V → Format → ℕ → List (VoiceSlot V) → ℕ × Option V × List (VoiceSlot V)
  make_voice none format i slots =
      (0, none, set slots i (record (slot_at slots i) { voice = none }))
  make_voice (some v) format i slots = (
    make_voice_id i (slot_at slots i).generation,
    some v,
    set slots i (record (slot_at slots i) { voice = some v; format = format; busy = true }),
  )

  -- `acquire`: the handle, `*outVoice`, and the slots. `ready` is that neither the engine nor the bus is null.
  unfoldable pub acquire :
      Bool → (V → Bool) → Option V → Format → List (VoiceSlot V) → ℕ × Option V × List (VoiceSlot V)
  acquire ready routed created format slots =
      if not ready then (0, none, slots) else elim (search routed format slots 0 none none) [
        | reuse i ↦ (
          make_voice_id i (slot_at slots i).generation,
          (slot_at slots i).voice,
          set slots i (record (slot_at slots i) { busy = true }),
        )
        | no_match voiceless mismatch ↦
            let (i, slots') = target voiceless mismatch slots in make_voice created format i slots'
      ]
