-- ===== src/Audio/Wav/Examples.antt =====
-- A small file, accepted, and a cut one.
use earth_rise_game.Prelude.{ℕ, ◌+◌, ◌≤◌, ◌≡◌, ◌≢◌, refl, List, [], ◌∷◌, ◌++◌, length}
use earth_rise_game.Net.Codec.{value}
use earth_rise_game.Audio.Wav.{
  WavStatus, ok, truncated, WavData, nothing_found, read_u16, read_u32, tag_equals, fmt_chunk,
  chunk, walk, finish, parse_wav,
}
use earth_rise_game.Audio.Wav.Walk.{parse_wav_total}

-- The header, and a 'fmt ' chunk: PCM, mono, 8000 samples a second, 16 bits.
abbrev header : List ℕ
header =
    82 ∷ 73 ∷ 70 ∷ 70 ∷ 38 ∷ 0 ∷ 0 ∷ 0 ∷ 87 ∷ 65 ∷ 86 ∷ 69 ∷ 102 ∷ 109 ∷ 116 ∷ 32 ∷ 16 ∷ 0 ∷ 0 ∷ 0
    ∷ 1 ∷ 0 ∷ 1 ∷ 0 ∷ 64 ∷ 31 ∷ 0 ∷ 0 ∷ 128 ∷ 62 ∷ 0 ∷ 0 ∷ 2 ∷ 0 ∷ 16 ∷ 0 ∷ []

-- A 'data' chunk of two bytes.
abbrev samples : List ℕ
samples = 100 ∷ 97 ∷ 116 ∷ 97 ∷ 2 ∷ 0 ∷ 0 ∷ 0 ∷ 5 ∷ 0 ∷ []

abbrev no_data : WavData
no_data = record { format = nothing_found.fmt; pcm = nothing_found.data_span }

accepted :
    parse_wav (header ++ samples) no_data
    ≡ value (
      ok,
      record {
        format = record { channels = 1; sample_rate = 8000; bits_per_sample = 16 };
        pcm = record { offset = 44; size = 2 };
      },
    )
unfolding parse_wav walk chunk fmt_chunk tag_equals read_u16 read_u32 finish
accepted = refl

cut_short :
    parse_wav (header ++ (100 ∷ 97 ∷ 116 ∷ 97 ∷ 9 ∷ 0 ∷ 0 ∷ 0 ∷ [])) no_data
    ≡ value (truncated, no_data)
unfolding parse_wav walk chunk fmt_chunk tag_equals read_u16 read_u32 finish
cut_short = refl

parse_wav_total_example :
    (status : WavStatus) × (result : WavData) × (parse_wav (header ++ samples) no_data
      ≡ value (status, result))
    × (status ≡ ok
        → (result.format.bits_per_sample ≡ 16)
          × (result.pcm.offset + result.pcm.size ≤ length (header ++ samples)))
    × (status ≢ ok → result ≡ no_data)
parse_wav_total_example = parse_wav_total (header ++ samples) no_data
