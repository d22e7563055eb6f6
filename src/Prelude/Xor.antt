-- ===== src/Prelude/Xor.antt =====
-- Exclusive or, bit by bit.
use Prim.Native.Nat.{
  ℕ, zero, suc, ◌+◌, ◌-◌, ◌*◌, ◌/◌, ◌%◌, ◌^◌, ◌≤◌, ◌<◌, bit_xor, digits, differ, bit_xor-bitwise,
}
use mathlib.Core.Path.{◌≡◌, refl, sym, ap, ◌∙◌}
use native.Mathlib.Omega.{arith}
use native.Mathlib.Nat.{pow-suc, pow-succ', mul_comm, div-div-eq-div-mul}
use earth_rise_game.Prelude.Bits.{bit, pow_pos}

abbrev apart : ℕ → ℕ → ℕ → ℕ
apart fuel x y = digits (λ b. b) differ fuel x y

apart_fuel : (f g x y : ℕ) → x ≤ f → x ≤ g → apart f x y ≡ apart g x y
apart_fuel zero zero x y _ _ = refl
apart_fuel zero (suc g) zero y _ _ = refl
apart_fuel zero (suc g) (suc x) y h _ = absurd (omega arith)
apart_fuel (suc f) zero zero y _ _ = refl
apart_fuel (suc f) zero (suc x) y _ h = absurd (omega arith)
apart_fuel (suc f) (suc g) zero y _ _ = refl
apart_fuel (suc f) (suc g) (suc x) y h k =
    omega (arith, apart_fuel f g (suc x / 2) (y / 2) (omega arith) (omega arith))

zero-bit_xor : (y : ℕ) → bit_xor 0 y ≡ y
zero-bit_xor y = bit_xor-bitwise 0 y

digit : (y : ℕ) → differ 0 (y % 2) ≡ y % 2
digit y = ground arith

bit_xor_step : (x y : ℕ) → bit_xor x y ≡ bit_xor (x / 2) (y / 2) * 2 + differ (x % 2) (y % 2)
bit_xor_step zero y = omega (arith, zero-bit_xor y, zero-bit_xor (y / 2), digit y)
bit_xor_step (suc x) y = omega (
  arith,
  bit_xor-bitwise (suc x) y,
  bit_xor-bitwise (suc x / 2) (y / 2),
  apart_fuel x (suc x / 2) (suc x / 2) (y / 2) (omega arith) (omega arith),
)

differ_small : (x y : ℕ) → x ≤ 1 → y ≤ 1 → differ x y ≤ 1
differ_small zero y h k = k
differ_small (suc x) zero h k = h
differ_small (suc x) (suc y) h k = differ_small x y (omega arith) (omega arith)

differ-le-one : (a b : ℕ) → differ (a % 2) (b % 2) ≤ 1
differ-le-one a b = differ_small (a % 2) (b % 2) (omega arith) (omega arith)

pub bit-xor : (k x y : ℕ) → bit k (bit_xor x y) ≡ differ (bit k x) (bit k y)
unfolding bit
bit-xor zero x y = omega (arith, bit_xor_step x y, differ-le-one x y)
bit-xor (suc k) x y =
    let half : bit_xor x y / 2 ≡ bit_xor (x / 2) (y / 2) =
      omega (arith, bit_xor_step x y, differ-le-one x y) in
    rw half (bit-xor k (x / 2) (y / 2))

pub differ_assoc :
    (x y z : ℕ) → x ≤ 1 → y ≤ 1 → z ≤ 1 → differ (differ x y) z ≡ differ x (differ y z)
differ_assoc zero y z a b c = refl
differ_assoc (suc (suc x)) y z a b c = absurd (omega arith)
differ_assoc (suc zero) (suc (suc y)) z a b c = absurd (omega arith)
differ_assoc (suc zero) y (suc (suc z)) a b c = absurd (omega arith)
differ_assoc (suc zero) zero zero a b c = refl
differ_assoc (suc zero) zero (suc zero) a b c = refl
differ_assoc (suc zero) (suc zero) zero a b c = refl
differ_assoc (suc zero) (suc zero) (suc zero) a b c = refl

pub bit_xor-lt : (n x y : ℕ) → x < 2 ^ n → y < 2 ^ n → bit_xor x y < 2 ^ n
bit_xor-lt zero x y h k =
    let zx : x ≡ 0 = omega arith in
    let zy : y ≡ 0 = omega arith in rw (zx, zy) (omega (arith, zero-bit_xor 0))
bit_xor-lt (suc n) x y h k = omega (
  arith,
  bit_xor_step x y,
  differ-le-one x y,
  pow-suc 2 n,
  bit_xor-lt n (x / 2) (y / 2) (omega (arith, pow-suc 2 n)) (omega (arith, pow-suc 2 n)),
)

pub bit_xor-zero : (n x : ℕ) → x < 2 ^ n → bit_xor x 0 ≡ x
bit_xor-zero zero x h = let z : x ≡ 0 = omega arith in rw z (zero-bit_xor 0)
bit_xor-zero (suc n) x h = omega (
  arith,
  bit_xor_step x 0,
  bit_xor-zero n (x / 2) (omega (arith, pow-suc 2 n)),
  zero_last (x % 2),
)
  where
    zero_last : (d : ℕ) → differ d 0 ≡ d
    zero_last zero = refl
    zero_last (suc d) = refl

-- Against a word of ones every bit is turned.
pub bit_xor_ones : (n x : ℕ) → x < 2 ^ n → bit_xor x (2 ^ n - 1) ≡ 2 ^ n - 1 - x
bit_xor_ones zero x h = let z : x ≡ 0 = omega arith in rw z (zero-bit_xor 0)
bit_xor_ones (suc n) x h =
    let half : (2 ^ suc n - 1) / 2 ≡ 2 ^ n - 1 = omega (arith, pow-suc 2 n, pow_pos n) in
    let odd : (2 ^ suc n - 1) % 2 ≡ 1 = omega (arith, pow-suc 2 n, pow_pos n) in
    let rest : bit_xor (x / 2) ((2 ^ suc n - 1) / 2) ≡ 2 ^ n - 1 - x / 2 =
      rw half (bit_xor_ones n (x / 2) (omega (arith, pow-suc 2 n))) in
    let last : differ (x % 2) ((2 ^ suc n - 1) % 2) ≡ 1 - x % 2 =
      rw odd (turned (x % 2) (omega arith)) in
    omega (arith, bit_xor_step x (2 ^ suc n - 1), rest, last, pow-suc 2 n)
  where
    turned : (d : ℕ) → d ≤ 1 → differ d 1 ≡ 1 - d
    turned zero h = refl
    turned (suc zero) h = refl
    turned (suc (suc d)) h = absurd (omega arith)

differ_cancel : (a b c : ℕ) → a ≤ 1 → b ≤ 1 → c ≤ 1 → differ a c ≡ differ b c → a ≡ b
differ_cancel zero zero c h k l e = refl
differ_cancel (suc zero) (suc zero) c h k l e = refl
differ_cancel zero (suc zero) zero h k l e = e
differ_cancel zero (suc zero) (suc zero) h k l e = sym e
differ_cancel zero (suc zero) (suc (suc c)) h k l e = absurd (omega arith)
differ_cancel (suc zero) zero zero h k l e = e
differ_cancel (suc zero) zero (suc zero) h k l e = sym e
differ_cancel (suc zero) zero (suc (suc c)) h k l e = absurd (omega arith)
differ_cancel (suc (suc a)) b c h k l e = absurd (omega arith)
differ_cancel zero (suc (suc b)) c h k l e = absurd (omega arith)
differ_cancel (suc zero) (suc (suc b)) c h k l e = absurd (omega arith)

pub bit_xor_cancel : (n x y z : ℕ) → x < 2 ^ n → y < 2 ^ n → bit_xor x z ≡ bit_xor y z → x ≡ y
bit_xor_cancel zero x y z h k e = omega arith
bit_xor_cancel (suc n) x y z h k e =
    let sx : bit_xor x z ≡ bit_xor (x / 2) (z / 2) * 2 + differ (x % 2) (z % 2) =
      bit_xor_step x z in
    let sy : bit_xor y z ≡ bit_xor (y / 2) (z / 2) * 2 + differ (y % 2) (z % 2) =
      bit_xor_step y z in
    let high : x / 2 ≡ y / 2 =
      bit_xor_cancel n (x / 2) (y / 2) (z / 2) (omega (arith, pow-suc 2 n))
        (omega (arith, pow-suc 2 n))
        (omega (arith, sx, sy, differ-le-one x z, differ-le-one y z)) in
    let low : x % 2 ≡ y % 2 =
      differ_cancel (x % 2) (y % 2) (z % 2) (omega arith) (omega arith) (omega arith)
        (omega (arith, sx, sy, differ-le-one x z, differ-le-one y z)) in
    omega arith

differ_comm : (a b : ℕ) → a ≤ 1 → b ≤ 1 → differ a b ≡ differ b a
differ_comm zero zero h k = refl
differ_comm zero (suc zero) h k = refl
differ_comm zero (suc (suc b)) h k = absurd (omega arith)
differ_comm (suc zero) zero h k = refl
differ_comm (suc zero) (suc zero) h k = refl
differ_comm (suc zero) (suc (suc b)) h k = absurd (omega arith)
differ_comm (suc (suc a)) b h k = absurd (omega arith)

pub bit_xor_comm : (n x y : ℕ) → x < 2 ^ n → y < 2 ^ n → bit_xor x y ≡ bit_xor y x
bit_xor_comm zero x y h k =
    let zx : x ≡ 0 = omega arith in let zy : y ≡ 0 = omega arith in rw (zx, zy) refl
bit_xor_comm (suc n) x y h k = omega (
  arith,
  bit_xor_step x y,
  bit_xor_step y x,
  differ_comm (x % 2) (y % 2) (omega arith) (omega arith),
  bit_xor_comm n (x / 2) (y / 2) (omega (arith, pow-suc 2 n)) (omega (arith, pow-suc 2 n)),
)

pub bit_xor-half : (x y : ℕ) → bit_xor x y / 2 ≡ bit_xor (x / 2) (y / 2)
bit_xor-half x y = omega (arith, bit_xor_step x y, differ-le-one x y)

-- A shift to the right acts on both sides.
pub bit_xor-shift : (k x y : ℕ) → bit_xor x y / 2 ^ k ≡ bit_xor (x / 2 ^ k) (y / 2 ^ k)
bit_xor-shift zero x y =
    let whole : (z : ℕ) → z / 2 ^ 0 ≡ z = λ z. omega arith in
    rw (whole (bit_xor x y), whole x, whole y) refl
bit_xor-shift (suc k) x y =
    let halved : (z : ℕ) → z / 2 ^ suc k ≡ z / 2 / 2 ^ k =
      λ z. rw (pow-succ' 2 k) (sym (div-div-eq-div-mul z 2 (2 ^ k))) in
    rw (halved (bit_xor x y), halved x, halved y, bit_xor-half x y)
      (bit_xor-shift k (x / 2) (y / 2))

pub bit_xor_cancel_left :
    (n x y z : ℕ) → x < 2 ^ n → y < 2 ^ n → z < 2 ^ n → bit_xor z x ≡ bit_xor z y → x ≡ y
bit_xor_cancel_left n x y z h k l e =
    bit_xor_cancel n x y z h k (bit_xor_comm n x z h l ∙ e ∙ bit_xor_comm n z y l k)

-- A number is known from its exclusive or with itself shifted.
pub xor_shift_cancel :
    (j n x y : ℕ)
    → x < 2 ^ n
    → y < 2 ^ n
    → bit_xor x (x / 2 ^ suc j) ≡ bit_xor y (y / 2 ^ suc j)
    → x ≡ y
xor_shift_cancel j zero x y h k e = omega arith
xor_shift_cancel j (suc n) x y h k e =
    let swap : (z : ℕ) → z / 2 ^ suc j / 2 ≡ z / 2 / 2 ^ suc j = λ z.
      div-div-eq-div-mul z (2 ^ suc j) 2
      ∙ ap (λ (t : ℕ). z / t) (mul_comm (2 ^ suc j) 2)
      ∙ sym (div-div-eq-div-mul z 2 (2 ^ suc j)) in
    let low : (z : ℕ) → z < 2 ^ suc n → z / 2 < 2 ^ n = λ z s. omega (arith, s, pow-suc 2 n) in
    let halves : (z : ℕ) → bit_xor z (z / 2 ^ suc j) / 2 ≡ bit_xor (z / 2) (z / 2 / 2 ^ suc j) =
      λ z. bit_xor-half z (z / 2 ^ suc j) ∙ ap (bit_xor (z / 2)) (swap z) in
    let high : x / 2 ≡ y / 2 =
      xor_shift_cancel j n (x / 2) (y / 2) (low x h) (low y k)
        (sym (halves x) ∙ ap (λ (t : ℕ). t / 2) e ∙ halves y) in
    let split : (z : ℕ) → z / 2 ^ suc j ≡ z / 2 / 2 ^ j =
      λ z. rw (pow-succ' 2 j) (sym (div-div-eq-div-mul z 2 (2 ^ j))) in
    let same : x / 2 ^ suc j ≡ y / 2 ^ suc j =
      split x ∙ ap (λ (t : ℕ). t / 2 ^ j) high ∙ sym (split y) in
    bit_xor_cancel (suc n) x y (x / 2 ^ suc j) h k (e ∙ ap (bit_xor y) (sym same))
