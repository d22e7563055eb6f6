-- ===== src/Audio/Voices/Examples.antt =====
-- A pool in which a voice is acquired, released and acquired again.
use earth_rise_game.Prelude.{
  ℕ, ◌^◌, ◌<◌, ◌≡◌, refl, true, false, not, ◌&&◌, ◌||◌, List, [], some, ◌==◌, length, arith,
}
use earth_rise_game.Audio.Voices.{
  Format, VoiceSlot, release, make_voice_id, search, target, make_voice, acquire,
}
use earth_rise_game.Audio.Voices.Slots.{plays}
use earth_rise_game.Audio.Voices.Pool.{IsPool, acquire_lem, handles_refine}

abbrev mono : Format
mono = record { tag = 1; channels = 1; samples_per_sec = 44100; bits_per_sample = 16 }

abbrev empty : List (VoiceSlot ℕ)
empty = []

empty-IsPool : IsPool empty
empty-IsPool = record { few = omega arith; gens = λ i. (omega arith, omega arith) }

-- The device routes every voice, and makes voice 40.
abbrev playing : List (VoiceSlot ℕ)
playing = (acquire true (λ v. true) (some 40) mono empty).2

first_handle : (acquire true (λ v. true) (some 40) mono empty).0 ≡ 2 ^ 20
unfolding acquire search target make_voice make_voice_id
first_handle = refl

playing-IsPool : IsPool playing
playing-IsPool = (acquire_lem true (λ v. true) (some 40) mono empty empty-IsPool (omega arith)).0

-- One voice plays, and its handle is released; or a second one is acquired.
handles_refine_example :
    let (id, out, slots') = acquire true (λ v. true) (some 41) mono playing in
    (IsPool slots'
      × (plays id playing ≡ false)
      × ((h : ℕ) → h < 2 ^ 32 → plays h slots' ≡ (not (id == 0) && (h == id) || plays h playing)))
    × (IsPool (release 1048576 playing)
        × ((h : ℕ)
            → h < 2 ^ 32
            → plays h (release 1048576 playing) ≡ (not (h == 1048576) && plays h playing)))
handles_refine_example =
    handles_refine true (λ v. true) (some 41) mono playing 1048576 playing-IsPool one_slot
      (omega arith)
  where
    one_slot : length playing < 2 ^ 20
    one_slot = unfold acquire search target make_voice in omega arith
