-- ===== src/Audio/Wav.antt =====
-- NeuronAudio/WavParse.h: the walk over the chunks of a RIFF/WAVE file. A read outside the file, which C++
-- leaves undefined, is a fault; a span is its offset in the file and its size.
pub mod Walk
mod Examples
use earth_rise_game.Prelude.{
  ℕ, zero, suc, ◌+◌, ◌*◌, ◌%◌, ◌^◌, bit_and, bit_or, Bool, true, false, not, ◌&&◌, ◌||◌, List, ltb,
  ◌==◌, if◌then◌else◌, length,
}
use earth_rise_game.Net.Codec.{Outcome, value, no_rounds, ◌>>=◌, byte_at}

-- `enum class WavStatus`.
pub data WavStatus : Type 0 where
  ok : WavStatus
  not_riff_wave : WavStatus
  truncated : WavStatus
  missing_fmt : WavStatus
  missing_data : WavStatus
  unsupported_format : WavStatus
  not_pcm16 : WavStatus

-- `struct WavFormat`.
pub record WavFormat : Type 0 where
  pub channels : ℕ
  pub sample_rate : ℕ
  pub bits_per_sample : ℕ

pub record Span : Type 0 where
  pub offset : ℕ
  pub size : ℕ

-- `struct WavData`.
pub record WavData : Type 0 where
  pub format : WavFormat
  pub pcm : Span

abbrev pub wav_pcm_tag : ℕ
wav_pcm_tag = 1

-- `readU16`.
unfoldable pub read_u16 : List ℕ → ℕ → Outcome ℕ
read_u16 file p = do
  a ← byte_at file p
  b ← byte_at file (p + 1)
  value (bit_or a (b * 2 ^ 8) % 2 ^ 16)

-- `readU32`.
unfoldable pub read_u32 : List ℕ → ℕ → Outcome ℕ
read_u32 file p = do
  a ← byte_at file p
  b ← byte_at file (p + 1)
  c ← byte_at file (p + 2)
  d ← byte_at file (p + 3)
  value (bit_or (bit_or (bit_or a (b * 2 ^ 8)) (c * 2 ^ 16)) (d * 2 ^ 24) % 2 ^ 32)

-- `tagEquals`, which stops at the first byte that differs.
unfoldable pub tag_equals : List ℕ → ℕ → ℕ → ℕ → ℕ → ℕ → Outcome Bool
tag_equals file p a b c d = do
  w ← byte_at file p
  if not (w == a) then value false else do
    x ← byte_at file (p + 1)
    if not (x == b) then value false else do
      y ← byte_at file (p + 2)
      if not (y == c) then value false else do z ← byte_at file (p + 3); value (z == d)

-- The variables of the walk.
pub record Found : Type 0 where
  pub have_fmt : Bool
  pub fmt : WavFormat
  pub have_data : Bool
  pub data_span : Span

abbrev pub nothing_found : Found
nothing_found = record {
  have_fmt = false;
  fmt = record { channels = 0; sample_rate = 0; bits_per_sample = 0 };
  have_data = false;
  data_span = record { offset = 0; size = 0 };
}

-- How a chunk ends: with the return of a status, or with what is found so far.
pub data Step : Type 0 where
  stop : WavStatus → Step
  go : Found → Step

-- The chunk 'fmt '.
unfoldable pub fmt_chunk : List ℕ → ℕ → ℕ → Found → Outcome Step
fmt_chunk file body size found = if ltb size 16 then value (stop truncated) else do
  tag ← read_u16 file body
  channels ← read_u16 file (body + 2)
  rate ← read_u32 file (body + 4)
  bits ← read_u16 file (body + 14)
  value (
      if not (tag == wav_pcm_tag)
      then stop unsupported_format
      else if not (bits == 16)
      then stop not_pcm16
      else go (record found {
        have_fmt = true;
        fmt = record { channels = channels; sample_rate = rate; bits_per_sample = bits };
      }))

-- A chunk of either kind, or of another one, which is skipped.
unfoldable pub chunk : List ℕ → ℕ → ℕ → ℕ → Found → Outcome Step
chunk file pos body size found = do
  is_fmt ← tag_equals file pos 102 109 116 32
  if is_fmt then fmt_chunk file body size found else do
    is_data ← tag_equals file pos 100 97 116 97
    value (
        go (
          if is_data
          then record found { have_data = true; data_span = record { offset = body; size = size } }
          else found))

-- The loop over the chunks, with the rounds that are left.
unfoldable pub walk : ℕ → List ℕ → ℕ → Found → Outcome Step
walk zero file pos found = no_rounds
walk (suc n) file pos found = if ltb (length file) (pos + 8) then value (go found) else do
  size ← read_u32 file (pos + 4)
  if ltb (length file) (pos + 8 + size) then value (stop truncated) else do
    step ← chunk file pos (pos + 8) size found
    elim step [
      | stop status ↦ value (stop status)
      | go found' ↦ walk n file (pos + 8 + (size + bit_and size 1)) found'
    ]

-- What `parseWav` returns behind the loop, and `out`.
unfoldable pub finish : Step → WavData → WavStatus × WavData
finish (stop status) out = (status, out)
finish (go found) out =
    if not found.have_fmt
    then (missing_fmt, out)
    else if not found.have_data
    then (missing_data, out)
    else (ok, record { format = found.fmt; pcm = found.data_span })

-- `parseWav`: the status, and `out`. Each round takes eight bytes or more, so that there are as many
-- rounds as bytes.
unfoldable pub parse_wav : List ℕ → WavData → Outcome (WavStatus × WavData)
parse_wav file out = if ltb (length file) 12 then value (not_riff_wave, out) else do
  riff ← tag_equals file 0 82 73 70 70
  if not riff then value (not_riff_wave, out) else do
    wave ← tag_equals file 8 87 65 86 69
    if not wave
        then value (not_riff_wave, out)
        else do step ← walk (length file) file 12 nothing_found; value (finish step out)
