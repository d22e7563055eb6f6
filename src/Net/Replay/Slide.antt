-- ===== src/Net/Replay/Slide.antt =====
-- What `SlideForward` does to each bit of the window.
use native.Mathlib.Decide.{dec_lt, dec_le}
use native.Mathlib.Nat.{div-le_self}
use earth_rise_game.Prelude.{
  ℕ, zero, suc, ◌+◌, ◌-◌, ◌*◌, ◌/◌, ◌%◌, ◌^◌, ◌≤◌, ◌<◌, ◌≡◌, refl, ap, ◌∙◌, List, [], ◌∷◌, arith,
  ltb, leb, ◌==◌, if◌then◌else◌, set, length, All, get_or-set_self, get_or-set_ne, length-set, inl,
  inr, Bool-cases,
}
use earth_rise_game.Prelude.Bits.{
  bit, bit-or, bit-shl, bit-shr, bit-mod, bit_ge, bit_or-lt, bit_of_zero, zero-bit_or,
}
use earth_rise_game.Net.Replay.{
  words, window_bits, word_at, whole_word, split_word, slide_loop, slide_forward, clear,
}
use earth_rise_game.Net.Replay.Words.{IsWord, IsWindow, window_bit, word_at-IsWord, set-IsWord}

-- The descending loop reads no word that it has already written.
slide_loop_lem :
    (word : ℕ → List ℕ → ℕ)
    → ((i k v : ℕ) (ws : List ℕ) → i < k → word i (set ws k v) ≡ word i ws)
    → (n j : ℕ) (ws : List ℕ) → n ≤ length ws
    → word_at (slide_loop word n ws) j ≡ (if ltb j n then word j ws else word_at ws j)
unfolding slide_loop
slide_loop_lem word reads_below zero j ws h = ground arith
slide_loop_lem word reads_below (suc i) j ws h = ground (
  arith,
  slide_loop_lem word reads_below i j (set ws i (word i ws)),
  length-set ws i (word i ws),
  reads_below j i (word i ws) ws,
  get_or-set_self ws i (word i ws) 0,
  get_or-set_ne ws i j (word i ws) 0,
)

whole_word_reads :
    (s i k v : ℕ) (ws : List ℕ) → i < k → whole_word s i (set ws k v) ≡ whole_word s i ws
unfolding whole_word
whole_word_reads s i k v ws h = ground (arith, get_or-set_ne ws k (i - s) v 0)

split_word_reads :
    (s b i k v : ℕ) (ws : List ℕ) → i < k → split_word s b i (set ws k v) ≡ split_word s b i ws
unfolding split_word
split_word_reads s b i k v ws h =
    rw
      (
        get_or-set_ne ws k (i - s) v 0 (omega arith),
        get_or-set_ne ws k (i - s - 1) v 0 (omega arith),
      )
      refl

-- Bit `k` of word `j` after a shift by `64 * s + b` bits.
bit-split_word :
    (s b j k : ℕ) (ws : List ℕ)
    → All IsWord ws
    → 0 < b
    → b < 64
    → k < 64
    → bit k (split_word s b j ws) ≡ (
        if leb b k
        then (if leb s j then bit (k - b) (word_at ws (j - s)) else 0)
        else (if leb (s + 1) j then bit (k + 64 - b) (word_at ws (j - s - 1)) else 0))
unfolding split_word
bit-split_word s b j k ws v hb hb' hk =
    let lo : ℕ = word_at ws (j - s) in
    let hi : ℕ = word_at ws (j - s - 1) in
    let same : k + (64 - b) ≡ k + 64 - b = omega arith in
    let hi_bit : bit k (hi / 2 ^ (64 - b)) ≡ bit (k + 64 - b) hi =
      bit-shr k (64 - b) hi ∙ ap (λ t. bit t hi) same in
    ground (
      arith,
      zero-bit_or (lo * 2 ^ b % 2 ^ 64),
      bit-or k (lo * 2 ^ b % 2 ^ 64) (hi / 2 ^ (64 - b)),
      bit-or k 0 (hi / 2 ^ (64 - b)),
      bit_of_zero k,
      bit-mod k 64 (lo * 2 ^ b),
      bit-shl k b lo,
      hi_bit,
      bit_ge 64 (k + 64 - b) hi (word_at-IsWord ws (j - s - 1) v),
    )

word_at-clear : (ws : List ℕ) (j : ℕ) → word_at (clear ws) j ≡ 0
unfolding clear
word_at-clear [] j = refl
word_at-clear (w ∷ ws) zero = refl
word_at-clear (w ∷ ws) (suc j) = word_at-clear ws j

slide_whole :
    (shift o : ℕ) (ws : List ℕ)
    → IsWindow ws
    → o < 1024
    → shift % 64 ≡ 0
    → window_bit (slide_loop (whole_word (shift / 64)) words ws) o
      ≡ (if ltb o shift then 0 else window_bit ws (o - shift))
unfolding whole_word
slide_whole shift o ws v h e =
    let s : ℕ = shift / 64 in
    let j : ℕ = o / 64 in
    rw (slide_loop_lem (whole_word s) (whole_word_reads s) 16 j ws (omega arith))
      (elim (dec_lt o shift) [
        | yes before ↦ ground (arith, bit_of_zero (o % 64))
        | no after ↦
            let row : (o - shift) / 64 ≡ j - s = omega arith in
            let col : (o - shift) % 64 ≡ o % 64 = omega arith in rw (row, col) (ground arith)
      ])

slide_split :
    (shift o : ℕ) (ws : List ℕ)
    → IsWindow ws
    → o < 1024
    → 0 < shift % 64
    → window_bit (slide_loop (split_word (shift / 64) (shift % 64)) words ws) o
      ≡ (if ltb o shift then 0 else window_bit ws (o - shift))
slide_split shift o ws v h e =
    let s : ℕ = shift / 64 in
    let b : ℕ = shift % 64 in
    let j : ℕ = o / 64 in
    let k : ℕ = o % 64 in
    rw (slide_loop_lem (split_word s b) (split_word_reads s b) 16 j ws (omega arith))
      (elim (dec_le b k) [
        | yes right ↦ elim (dec_lt o shift) [
          | yes before ↦ ground (arith, bit-split_word s b j k ws v.word)
          | no after ↦
              let row : (o - shift) / 64 ≡ j - s = omega arith in
              let col : (o - shift) % 64 ≡ k - b = omega arith in
              rw (row, col) (ground (arith, bit-split_word s b j k ws v.word))
        ]
        | no left ↦ elim (dec_lt o shift) [
          | yes before ↦ ground (arith, bit-split_word s b j k ws v.word)
          | no after ↦
              let row : (o - shift) / 64 ≡ j - s - 1 = omega arith in
              let col : (o - shift) % 64 ≡ k + 64 - b = omega arith in
              rw (row, col) (ground (arith, bit-split_word s b j k ws v.word))
        ]
      ])

-- A slide moves each bit to the offset that is `shift` further from the new highest number, drops
-- those that leave the window, and leaves the new offsets free.
pub slide_forward_lem :
    (shift o : ℕ) (ws : List ℕ)
    → IsWindow ws
    → o < 1024
    → window_bit (slide_forward shift ws) o ≡ (if ltb o shift then 0 else window_bit ws (o - shift))
unfolding slide_forward
slide_forward_lem shift o ws v h = elim (Bool-cases (leb window_bits shift)) [
  | inl far ↦ rw (far, word_at-clear, bit_of_zero) (ground arith)
  | inr near ↦ elim (Bool-cases ((shift % 64) == 0)) [
    | inl whole ↦ rw (near, whole) (slide_whole shift o ws v h (ground arith))
    | inr split ↦ rw (near, split) (slide_split shift o ws v h (ground arith))
  ]
]

clear-IsWindow : (ws : List ℕ) → All IsWord (clear ws) × (length (clear ws) ≡ length ws)
unfolding clear
clear-IsWindow [] = (tt, refl)
clear-IsWindow (w ∷ ws) = ((omega arith, (clear-IsWindow ws).0), ap suc (clear-IsWindow ws).1)

whole_word-IsWord : (s i : ℕ) (ws : List ℕ) → All IsWord ws → IsWord (whole_word s i ws)
unfolding whole_word
whole_word-IsWord s i ws v = ground (arith, word_at-IsWord ws (i - s) v)

split_word-IsWord : (s b i : ℕ) (ws : List ℕ) → All IsWord ws → IsWord (split_word s b i ws)
unfolding split_word
split_word-IsWord s b i ws v =
    let lo : ℕ = word_at ws (i - s) * 2 ^ b % 2 ^ 64 in
    let hi : ℕ = word_at ws (i - s - 1) in
    let shorter : hi / 2 ^ (64 - b) ≤ hi = div-le_self hi (2 ^ (64 - b)) in
    ground (
      arith,
      word_at-IsWord ws (i - s - 1) v,
      zero-bit_or lo,
      bit_or-lt 64 lo (hi / 2 ^ (64 - b)),
      bit_or-lt 64 0 (hi / 2 ^ (64 - b)),
    )

slide_loop-IsWindow :
    (word : ℕ → List ℕ → ℕ)
    → ((i : ℕ) (ws : List ℕ) → All IsWord ws → IsWord (word i ws))
    → (n : ℕ) (ws : List ℕ) → IsWindow ws
    → IsWindow (slide_loop word n ws)
unfolding slide_loop
slide_loop-IsWindow word fits zero ws v = v
slide_loop-IsWindow word fits (suc i) ws v =
    slide_loop-IsWindow word fits i (set ws i (word i ws)) (record {
      size = length-set ws i (word i ws) ∙ v.size;
      word = set-IsWord ws i (word i ws) v.word (fits i ws v.word);
    })

-- A slide keeps the shape of the array.
pub slide_forward-IsWindow :
    (shift : ℕ) (ws : List ℕ) → IsWindow ws → IsWindow (slide_forward shift ws)
unfolding slide_forward
slide_forward-IsWindow shift ws v = elim (Bool-cases (leb window_bits shift)) [
  | inl far ↦
      rw far (record { size = (clear-IsWindow ws).1 ∙ v.size; word = (clear-IsWindow ws).0 })
  | inr near ↦ elim (Bool-cases ((shift % 64) == 0)) [
    | inl whole ↦
        rw (near, whole)
          (slide_loop-IsWindow (whole_word (shift / 64)) (whole_word-IsWord (shift / 64)) 16 ws v)
    | inr split ↦
        rw (near, split)
          (slide_loop-IsWindow (split_word (shift / 64) (shift % 64))
            (split_word-IsWord (shift / 64) (shift % 64)) 16 ws v)
  ]
]
