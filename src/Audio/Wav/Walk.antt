-- ===== src/Audio/Wav/Walk.antt =====
-- The parser ends on every file, reads nothing outside it, and what it accepts is PCM-16 inside the file.
use earth_rise_game.Prelude.{
  ℕ, zero, suc, ◌+◌, ◌≤◌, ◌<◌, ◌≡◌, ◌≢◌, refl, ap, ◌∙◌, bit_and, Bool, true, false, not, List, [],
  ◌∷◌, Option, none, some, ltb, ◌==◌, if◌then◌else◌, arith, length, get_elem?_in, Bool-cases, inl,
  inr,
}
use earth_rise_game.Net.Codec.{Outcome, value, out_of_bounds, ◌>>=◌, byte_at}
use earth_rise_game.Audio.Wav.{
  WavStatus, ok, not_riff_wave, missing_fmt, missing_data, unsupported_format, not_pcm16, WavFormat,
  WavData, Found, Step, stop, go, nothing_found, read_u16, read_u32, tag_equals, fmt_chunk, chunk,
  walk, finish, parse_wav,
}

-- It ends with a value that has the property.
pub data Yields {ℓ κ} {A : Type ℓ} (P : A → Type κ) : Outcome A → Type (ℓ ⊔ κ) where
  yields : (a : A) → P a → Yields P (value a)

abbrev Any {ℓ} : {A : Type ℓ} → A → Type 0
Any a = Unit

module _ {ℓ κ ρ σ} {A : Type ℓ} {B : Type κ} {P : A → Type ρ} {Q : B → Type σ} where
  then-Yields :
      (o : Outcome A) (f : A → Outcome B)
      → Yields P o
      → ((a : A) → P a → Yields Q (f a))
      → Yields Q (o >>= f)
  then-Yields o f (yields a p) g = g a p

module _ {ℓ σ} {B : Type ℓ} {Q : B → Type σ} where
  -- A read inside the file, and what follows.
  byte :
      (file : List ℕ) (i : ℕ) (f : ℕ → Outcome B)
      → i < length file
      → ((x : ℕ) → Yields Q (f x))
      → Yields Q (byte_at file i >>= f)
  byte file i f h g =
      let (x, e) = get_elem?_in file i h in
      let read : byte_at file i ≡ value x =
        ap (λ (o : Option ℕ). elim o [ none ↦ out_of_bounds | some y ↦ value y ]) e in
      rw read (g x)

  choose :
      (b : Bool) (x y : Outcome B)
      → (b ≡ true → Yields Q x)
      → (b ≡ false → Yields Q y)
      → Yields Q (if b then x else y)
  choose true x y g h = g refl
  choose false x y g h = h refl

read_u16-Yields : (file : List ℕ) (p : ℕ) → p + 2 ≤ length file → Yields Any (read_u16 file p)
unfolding read_u16
read_u16-Yields file p h =
    byte file p _ (omega arith) λ a. byte file (p + 1) _ (omega arith) λ b. yields _ tt

read_u32-Yields : (file : List ℕ) (p : ℕ) → p + 4 ≤ length file → Yields Any (read_u32 file p)
unfolding read_u32
read_u32-Yields file p h = byte file p _ (omega arith) λ a.
    byte file (p + 1) _ (omega arith)
      λ b. byte file (p + 2) _ (omega arith) λ c. byte file (p + 3) _ (omega arith) λ d. yields _ tt

tag_equals-Yields :
    (file : List ℕ) (p a b c d : ℕ) → p + 4 ≤ length file → Yields Any (tag_equals file p a b c d)
unfolding tag_equals
tag_equals-Yields file p a b c d h = byte file p _ (omega arith) λ w.
    choose (not (w == a)) _ _ (λ e. yields _ tt)
      λ e. byte file (p + 1) _ (omega arith) λ x.
        choose (not (x == b)) _ _ (λ e. yields _ tt)
          λ e. byte file (p + 2) _ (omega arith) λ y.
            choose (not (y == c)) _ _ (λ e. yields _ tt)
              λ e. byte file (p + 3) _ (omega arith) λ z. yields _ tt

-- What was found is PCM-16, and lies in the file.
record IsFound (file : List ℕ) (found : Found) : Type 0 where
  pcm16 : found.have_fmt ≡ true → found.fmt.bits_per_sample ≡ 16
  inside : found.have_data ≡ true → found.data_span.offset + found.data_span.size ≤ length file

abbrev IsStep : List ℕ → Step → Type 0
IsStep file (stop status) = status ≢ ok
IsStep file (go found) = IsFound file found

bad_format :
    (file : List ℕ) (tag bits : ℕ) (found : Found) (fmt : WavFormat)
    → IsFound file found
    → fmt.bits_per_sample ≡ bits
    → IsStep file (
        if not (tag == 1)
        then stop unsupported_format
        else if not (bits == 16)
        then stop not_pcm16
        else go (record found { have_fmt = true; fmt = fmt }))
bad_format file tag bits found fmt v e = elim (Bool-cases (tag == 1)) [
  | inl y ↦ elim (Bool-cases (bits == 16)) [
    | inl z ↦ rw (y, z) (record { pcm16 = λ _. e ∙ ground arith; inside = v.inside })
    | inr z ↦ rw (y, z) (λ q. cc)
  ]
  | inr y ↦ rw y (λ q. cc)
]

fmt_chunk-Yields :
    (file : List ℕ) (body size : ℕ) (found : Found)
    → body + size ≤ length file
    → IsFound file found
    → Yields (IsStep file) (fmt_chunk file body size found)
unfolding fmt_chunk
fmt_chunk-Yields file body size found h v =
    choose (ltb size 16) _ _ (λ e. yields _ (λ q. cc))
      λ e. then-Yields _ _ (read_u16-Yields file body (ground arith)) λ tag t.
        then-Yields _ _ (read_u16-Yields file (body + 2) (ground arith)) λ channels t.
          then-Yields _ _ (read_u32-Yields file (body + 4) (ground arith)) λ rate t.
            then-Yields _ _ (read_u16-Yields file (body + 14) (ground arith)) λ bits t. yields _ (
              bad_format file tag bits found
                (record { channels = channels; sample_rate = rate; bits_per_sample = bits }) v refl)

chunk-Yields :
    (file : List ℕ) (pos size : ℕ) (found : Found)
    → pos + 8 + size ≤ length file
    → IsFound file found
    → Yields (IsStep file) (chunk file pos (pos + 8) size found)
unfolding chunk
chunk-Yields file pos size found h v =
    then-Yields _ _ (tag_equals-Yields file pos 102 109 116 32 (omega arith)) λ is_fmt t.
      choose is_fmt _ _ (λ e. fmt_chunk-Yields file (pos + 8) size found h v)
        λ e.
          then-Yields _ _ (tag_equals-Yields file pos 100 97 116 97 (omega arith))
            λ is_data t. yields _ (marked is_data)
  where
    marked :
        (is_data : Bool)
        → IsFound file (
            if is_data
            then record found {
              have_data = true;
              data_span = record { offset = pos + 8; size = size };
            }
            else found)
    marked true = record { pcm16 = v.pcm16; inside = λ _. h }
    marked false = v

-- A round of the walk, with what is known of the rounds behind it.
round-Yields :
    (n : ℕ) (file : List ℕ) (pos : ℕ) (found : Found)
    → IsFound file found
    → ((pos' : ℕ) (found' : Found)
        → pos + 8 ≤ pos'
        → pos + 8 ≤ length file
        → IsFound file found'
        → Yields (IsStep file) (walk n file pos' found'))
    → Yields (IsStep file) (walk (suc n) file pos found)
unfolding walk
round-Yields n file pos found v rest =
    choose (ltb (length file) (pos + 8)) _ _ (λ e. yields _ v)
      λ e. then-Yields _ _ (read_u32-Yields file (pos + 4) (ground arith)) λ size t.
        choose (ltb (length file) (pos + 8 + size)) _ _ (λ f. yields _ (λ q. cc))
          λ f.
            then-Yields _ _ (chunk-Yields file pos size found (ground arith) v)
              (next size (ground arith))
  where
    next :
        (size : ℕ)
        → pos + 8 ≤ length file
        → (step : Step) → IsStep file step
        → Yields (IsStep file) (elim step [
          | stop status ↦ value (stop status)
          | go found' ↦ walk n file (pos + 8 + (size + bit_and size 1)) found'
        ])
    next size low (stop status) w = yields _ w
    next size low (go found') w =
        rest (pos + 8 + (size + bit_and size 1)) found' (omega arith) low w

walk-Yields :
    (n : ℕ) (file : List ℕ) (pos : ℕ) (found : Found)
    → length file ≤ pos + n
    → IsFound file found
    → Yields (IsStep file) (walk (suc n) file pos found)
walk-Yields zero file pos found h v =
    round-Yields zero file pos found v λ pos' found' a b w. absurd (omega (arith, h, b))
walk-Yields (suc n) file pos found h v =
    round-Yields (suc n) file pos found v
      λ pos' found' a b w. walk-Yields n file pos' found' (omega (arith, h, a)) w

-- The result of the parser.
record IsResult (file : List ℕ) (out : WavData) (r : WavStatus × WavData) : Type 0 where
  pub accepted :
      r.0 ≡ ok → (r.1.format.bits_per_sample ≡ 16) × (r.1.pcm.offset + r.1.pcm.size ≤ length file)
  pub refused : r.0 ≢ ok → r.1 ≡ out

failed :
    (file : List ℕ) (out : WavData) (status : WavStatus)
    → status ≢ ok
    → IsResult file out (status, out)
failed file out status bad = record { accepted = λ q. absurd (bad q); refused = λ q. refl }

finish-IsResult :
    (file : List ℕ) (out : WavData) (step : Step)
    → IsStep file step
    → IsResult file out (finish step out)
unfolding finish
finish-IsResult file out (stop status) w = failed file out status w
finish-IsResult file out (go found) w = elim (Bool-cases found.have_fmt) [
  | inl y ↦ elim (Bool-cases found.have_data) [
    | inl z ↦
        rw (y, z)
          (record { accepted = λ q. (w.pcm16 y, w.inside z); refused = λ q. absurd (q refl) })
    | inr z ↦ rw (y, z) (failed file out missing_data (λ q. cc))
  ]
  | inr y ↦ rw y (failed file out missing_fmt (λ q. cc))
]

enough :
    (file : List ℕ)
    → 12 ≤ length file
    → Yields (IsStep file) (walk (length file) file 12 nothing_found)
enough [] h = absurd (omega arith)
enough (x ∷ xs) h =
    walk-Yields (length xs) (x ∷ xs) 12 nothing_found (omega arith)
      (record { pcm16 = λ q. absurd cc; inside = λ q. absurd cc })

parsed : (file : List ℕ) (out : WavData) → Yields (IsResult file out) (parse_wav file out)
unfolding parse_wav
parsed file out =
    let other = failed file out not_riff_wave (λ q. cc) in
    choose (ltb (length file) 12) _ _ (λ e. yields _ other)
      λ e. then-Yields _ _ (tag_equals-Yields file 0 82 73 70 70 (ground arith)) λ riff t.
        choose (not riff) _ _ (λ e. yields _ other)
          λ e'. then-Yields _ _ (tag_equals-Yields file 8 87 65 86 69 (ground arith)) λ wave t.
            choose (not wave) _ _ (λ e. yields _ other)
              λ e''.
                then-Yields _ _ (enough file (ground arith))
                  λ step w. yields _ (finish-IsResult file out step w)

-- On every file parseWav ends, without a read outside the file. It accepts a file only with a format of 16
-- bits per sample, and with samples that lie in the file; and where it does not, `out` is left as it was.
pub parse_wav_total :
    (file : List ℕ) (out : WavData)
    → (status : WavStatus) × (result : WavData) × (parse_wav file out ≡ value (status, result))
      × (status ≡ ok
          → (result.format.bits_per_sample ≡ 16)
            × (result.pcm.offset + result.pcm.size ≤ length file))
      × (status ≢ ok → result ≡ out)
parse_wav_total file out = answer (parse_wav file out) (parsed file out)
  where
    answer :
        (o : Outcome (WavStatus × WavData))
        → Yields (IsResult file out) o
        → (status : WavStatus) × (result : WavData) × (o ≡ value (status, result))
          × (status ≡ ok
              → (result.format.bits_per_sample ≡ 16)
                × (result.pcm.offset + result.pcm.size ≤ length file))
          × (status ≢ ok → result ≡ out)
    answer o (yields r w) = (r.0, r.1, refl, w.accepted, w.refused)
