-- ===== src/Serde/BitStream/Written.antt =====
-- The stream that a writer holds, as a number, and what a round of `Write` does to its last byte.
use earth_rise_game.Prelude.{
  ℕ, suc, ◌+◌, ◌*◌, ◌%◌, ◌^◌, ◌≤◌, ◌<◌, bit_or, ◌≡◌, refl, ap, sym, ◌∙◌, false, List, [], ◌∷◌, ◌++◌,
  arith, ◌==◌, length, length-append, Bool-cases, inl, inr, ◌⊎◌,
}
use native.Mathlib.Nat.{pow-le-pow_right, mul-lt-mul_of_pos_right, mod-eq_of_lt}
use earth_rise_game.Prelude.Bits.{bit_or_disjoint, pow_pos}
use earth_rise_game.Prelude.Chunks.{pow-add, mul-mod_cut}
use earth_rise_game.Serde.BitStream.{BitWriter, open_byte, or_back}

-- The number that bytes stand for, the first byte highest.
unfoldable pub number_from : ℕ → List ℕ → ℕ
number_from high [] = high
number_from high (b ∷ bs) = number_from (high * 256 + b) bs

pub number_from-append :
    (high : ℕ) (xs : List ℕ) (b : ℕ)
    → number_from high (xs ++ (b ∷ [])) ≡ number_from high xs * 256 + b
unfolding number_from
number_from-append high [] b = refl
number_from-append high (x ∷ xs) b = number_from-append (high * 256 + x) xs b

or_back-append : (xs : List ℕ) (b x : ℕ) → or_back (xs ++ (b ∷ [])) x ≡ xs ++ (bit_or b x ∷ [])
unfolding or_back
or_back-append [] b x = refl
or_back-append (y ∷ []) b x = refl
or_back-append (y ∷ z ∷ ys) b x = ap (λ (t : List ℕ). y ∷ t) (or_back-append (z ∷ ys) b x)

length-or_back : (xs : List ℕ) (x : ℕ) → length (or_back xs x) ≡ length xs
unfolding or_back
length-or_back [] x = refl
length-or_back (y ∷ []) x = refl
length-or_back (y ∷ z ∷ ys) x = ap suc (length-or_back (z ∷ ys) x)

-- The writer's stream is the number `n` of `len` bits: the free bits of its last byte are zeros.
pub record Holds (w : BitWriter) (n : ℕ) (len : ℕ) : Type 0 where
  pub value : number_from 0 w.buf ≡ n * 2 ^ w.bits_free
  pub size : length w.buf * 8 ≡ len + w.bits_free
  pub few : w.bits_free < 8
  pub last :
      (w.bits_free ≡ 0)
      ⊎ ((front : List ℕ) × (high : ℕ) × (w.buf ≡ front ++ (high * 2 ^ w.bits_free ∷ [])))

-- The same, with a byte at the end that has free bits.
pub record Ready (w : BitWriter) (n len : ℕ) (front : List ℕ) (high : ℕ) : Type 0 where
  pub whole : w.buf ≡ front ++ (high * 2 ^ w.bits_free ∷ [])
  pub value : number_from 0 w.buf ≡ n * 2 ^ w.bits_free
  pub size : length w.buf * 8 ≡ len + w.bits_free
  pub some : 0 < w.bits_free
  pub few : w.bits_free ≤ 8

pub open_byte_full :
    (w : BitWriter)
    → w.bits_free ≡ 0
    → open_byte w ≡ record { buf = w.buf ++ (0 ∷ []); bits_free = 8 }
unfolding open_byte
open_byte_full w e = rw e refl

open_byte_part : (w : BitWriter) → 0 < w.bits_free → open_byte w ≡ w
unfolding open_byte
open_byte_part w h = let no : (w.bits_free == 0) ≡ false = ground arith in rw no refl

pub open_byte-Ready :
    (w : BitWriter) (n len : ℕ)
    → Holds w n len
    → (front : List ℕ) × (high : ℕ) × Ready (open_byte w) n len front high
open_byte-Ready w n len v = elim (Bool-cases (w.bits_free == 0)) [
  | inl t ↦ full (ground arith)
  | inr t ↦ elim v.last [
    | inl e ↦ absurd (ground arith)
    | inr (front, high, e) ↦ (
      front,
      high,
      rw (open_byte_part w (ground arith)) (record {
        whole = e;
        value = v.value;
        size = v.size;
        some = ground arith;
        few = omega (arith, v.few);
      }),
    )
  ]
]
  where
    scaled : w.bits_free ≡ 0 → number_from 0 w.buf * 256 + 0 ≡ n * 2 ^ 8
    scaled e = let one : n * 2 ^ w.bits_free ≡ n = rw e (omega arith) in omega (arith, one, v.value)

    full : w.bits_free ≡ 0 → (front : List ℕ) × (high : ℕ) × Ready (open_byte w) n len front high
    full e = (
      w.buf,
      0,
      rw (open_byte_full w e) (record {
        whole = refl;
        value = number_from-append 0 w.buf 0 ∙ scaled e;
        size = omega (arith, length-append w.buf (0 ∷ []), v.size, e);
        some = omega arith;
        few = omega arith;
      }),
    )

-- The bits that a round adds to the last byte.
pub chunk_bits :
    (x c s f : ℕ)
    → c + s ≡ f
    → f ≤ 8
    → (f ≡ 8) ⊎ (x < 2 ^ c)
    → x * 2 ^ s % 2 ^ 64 % 2 ^ 8 ≡ x % 2 ^ c * 2 ^ s
chunk_bits x c s f e few (inl all) =
    let whole : 2 ^ c * 2 ^ s ≡ 256 = sym (pow-add c s) ∙ ap (λ (t : ℕ). 2 ^ t) (e ∙ all) in
    let low : x * 2 ^ s % 2 ^ 64 % 2 ^ 8 ≡ x * 2 ^ s % 256 = omega arith in
    low
    ∙ ap (λ (t : ℕ). x * 2 ^ s % t) (sym whole)
    ∙ mul-mod_cut x (2 ^ c) (2 ^ s) (pow_pos c) (pow_pos s)
chunk_bits x c s f e few (inr small) =
    let whole : 2 ^ c * 2 ^ s ≡ 2 ^ f = sym (pow-add c s) ∙ ap (λ (t : ℕ). 2 ^ t) e in
    let room : 2 ^ f ≤ 2 ^ 8 = pow-le-pow_right (omega arith) {j = 8} few in
    let below : x * 2 ^ s < 2 ^ c * 2 ^ s = mul-lt-mul_of_pos_right small (pow_pos s) in
    let same : x % 2 ^ c ≡ x = mod-eq_of_lt small in rw same (omega (arith, whole, room, below))

-- What a round does to a byte that is ready for `chunk` bits.
pub fill_byte :
    (w : BitWriter) (n len : ℕ) (front : List ℕ) (high x c s y : ℕ)
    → Ready w n len front high
    → c + s ≡ w.bits_free
    → 0 < c
    → y < 2 ^ c
    → x ≡ y * 2 ^ s
    → Holds (record { buf = or_back w.buf x; bits_free = s }) (n * 2 ^ c + y) (len + c)
fill_byte w n len front high x c s y v e pos small ex =
    let split : 2 ^ w.bits_free ≡ 2 ^ c * 2 ^ s = ap (λ (t : ℕ). 2 ^ t) (sym e) ∙ pow-add c s in
    let below : y * 2 ^ s < 2 ^ w.bits_free =
      rw split (mul-lt-mul_of_pos_right small (pow_pos s)) in
    let back : bit_or (high * 2 ^ w.bits_free) x ≡ (high * 2 ^ c + y) * 2 ^ s =
      rw ex (bit_or_disjoint w.bits_free high (y * 2 ^ s) below ∙ rw split (grind arith)) in
    let buf' : or_back w.buf x ≡ front ++ ((high * 2 ^ c + y) * 2 ^ s ∷ []) =
      rw v.whole (
        or_back-append front (high * 2 ^ w.bits_free) x ∙ ap (λ (b : ℕ). front ++ (b ∷ [])) back) in
    let old : number_from 0 front * 256 + high * 2 ^ w.bits_free ≡ n * 2 ^ w.bits_free =
      sym (number_from-append 0 front (high * 2 ^ w.bits_free))
      ∙ ap (number_from 0) (sym v.whole)
      ∙ v.value in
    let old' : number_from 0 front * 256 + high * (2 ^ c * 2 ^ s) ≡ n * (2 ^ c * 2 ^ s) =
      rw split at old in
    record {
      value =
          ap (number_from 0) buf'
          ∙ number_from-append 0 front ((high * 2 ^ c + y) * 2 ^ s)
          ∙ grind (arith, old');
      size = omega (arith, length-or_back w.buf x, v.size);
      few = omega (arith, v.few);
      last = inr (front, high * 2 ^ c + y, buf');
    }
