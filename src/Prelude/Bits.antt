-- ===== src/Prelude/Bits.antt =====
-- The bits of a number, and what the native bit operations and shifts do to them.
use Prim.Native.Nat.{
  ℕ, zero, suc, ◌+◌, ◌-◌, ◌*◌, ◌/◌, ◌%◌, ◌^◌, ◌≤◌, ◌<◌, max, bit_or, digits, bit_or-bitwise,
}
use mathlib.Core.Path.{◌≡◌, refl, ap, ◌∙◌, sym}
use native.Mathlib.Omega.{arith}
use native.Mathlib.Nat.{pow-suc, pow-succ', add-mul-mod_self_right, mod-lt, mod-add-div'}
use native.Mathlib.Nat.{div-div-eq-div-mul, mod-eq_of_lt}
use earth_rise_game.Prelude.Tests.{ltb, ◌==◌, if◌then◌else◌}

-- Bit `k` of `x`, 0 or 1.
unfoldable pub bit : ℕ → ℕ → ℕ
bit zero x = x % 2
bit (suc k) x = bit k (x / 2)

pub bit-le-one : (k x : ℕ) → bit k x ≤ 1
unfolding bit
bit-le-one zero x = omega arith
bit-le-one (suc k) x = bit-le-one k (x / 2)

pub bit_of_zero : (k : ℕ) → bit k 0 ≡ 0
unfolding bit
bit_of_zero zero = refl
bit_of_zero (suc k) = bit_of_zero k

pub pow_pos : (k : ℕ) → 0 < 2 ^ k
pow_pos zero = omega arith
pow_pos (suc k) = omega (arith, pow-suc 2 k, pow_pos k)

-- The lowest digit of `bit_or`, from the digit recursion that the operation stands for.
abbrev or_digits : ℕ → ℕ → ℕ → ℕ
or_digits n a b = digits (λ b. b) max n a b

or_digits_fuel : (n m a b : ℕ) → a ≤ n → a ≤ m → or_digits n a b ≡ or_digits m a b
or_digits_fuel zero zero a b p q = refl
or_digits_fuel zero (suc m) zero b p q = refl
or_digits_fuel zero (suc m) (suc a) b p q = absurd (omega arith)
or_digits_fuel (suc n) zero zero b p q = refl
or_digits_fuel (suc n) zero (suc a) b p q = absurd (omega arith)
or_digits_fuel (suc n) (suc m) zero b p q = refl
or_digits_fuel (suc n) (suc m) (suc a) b p q =
    omega (arith, or_digits_fuel n m (suc a / 2) (b / 2) (omega arith) (omega arith))

pub zero-bit_or : (b : ℕ) → bit_or 0 b ≡ b
zero-bit_or b = bit_or-bitwise 0 b

bit_or_step : (a b : ℕ) → bit_or a b ≡ bit_or (a / 2) (b / 2) * 2 + max (a % 2) (b % 2)
bit_or_step zero b = omega (arith, zero-bit_or b, zero-bit_or (b / 2))
bit_or_step (suc a) b = omega (
  arith,
  bit_or-bitwise (suc a) b,
  bit_or-bitwise (suc a / 2) (b / 2),
  or_digits_fuel a (suc a / 2) (suc a / 2) (b / 2) (omega arith) (omega arith),
)

bit_or-zero_fuel : (n a : ℕ) → a ≤ n → bit_or a 0 ≡ a
bit_or-zero_fuel zero a h = let z : a ≡ 0 = omega arith in rw z (zero-bit_or 0)
bit_or-zero_fuel (suc n) zero h = zero-bit_or 0
bit_or-zero_fuel (suc n) (suc a) h =
    omega (arith, bit_or_step (suc a) 0, bit_or-zero_fuel n (suc a / 2) (omega arith))

pub bit_or-zero : (a : ℕ) → bit_or a 0 ≡ a
bit_or-zero a = bit_or-zero_fuel a a (omega arith)

pub bit-or : (k a b : ℕ) → bit k (bit_or a b) ≡ max (bit k a) (bit k b)
unfolding bit
bit-or zero a b = omega (arith, bit_or_step a b)
bit-or (suc k) a b =
    let half : bit_or a b / 2 ≡ bit_or (a / 2) (b / 2) = omega (arith, bit_or_step a b) in
    rw half (bit-or k (a / 2) (b / 2))

-- The one bit of a power of two.
pub bit-pow : (k j : ℕ) → bit k (2 ^ j) ≡ (if k == j then 1 else 0)
unfolding bit
bit-pow zero zero = refl
bit-pow zero (suc j) = ground (arith, pow-suc 2 j)
bit-pow (suc k) zero = ground (arith, bit_of_zero k)
bit-pow (suc k) (suc j) =
    let half : 2 ^ suc j / 2 ≡ 2 ^ j = omega (arith, pow-suc 2 j) in
    rw half (ground (arith, bit-pow k j))

-- A shift to the left moves each bit up, and fills with zeros.
pub bit-shl : (k s x : ℕ) → bit k (x * 2 ^ s) ≡ (if ltb k s then 0 else bit (k - s) x)
unfolding bit
bit-shl k zero x =
    let same : x * 2 ^ 0 ≡ x = omega arith in
    let less : k - 0 ≡ k = omega arith in rw (same, less) (ground arith)
bit-shl zero (suc s) x =
    let twice : x * 2 ^ suc s ≡ x * 2 ^ s * 2 =
      omega (arith, ap (λ (t : ℕ). x * t) (pow-suc 2 s)) in
    rw twice (grind arith)
bit-shl (suc k) (suc s) x =
    let half : x * 2 ^ suc s / 2 ≡ x * 2 ^ s = omega (arith, ap (λ (t : ℕ). x * t) (pow-suc 2 s)) in
    rw half (ground (arith, bit-shl k s x))

-- A shift to the right moves each bit down.
pub bit-shr : (k s x : ℕ) → bit k (x / 2 ^ s) ≡ bit (k + s) x
unfolding bit
bit-shr k zero x =
    let same : x / 2 ^ 0 ≡ x = omega arith in
    let less : k + 0 ≡ k = omega arith in rw (same, less) refl
bit-shr k (suc s) x =
    let half : x / 2 ^ suc s ≡ x / 2 / 2 ^ s =
      rw (div-div-eq-div-mul x 2 (2 ^ s)) (ap (λ (t : ℕ). x / t) (pow-succ' 2 s)) in
    let up : k + suc s ≡ suc (k + s) = omega arith in rw (half, up) (bit-shr k s (x / 2))

-- The remainder by `2 * m`: its lowest digit and its half.
pub mod_double_low : (x m : ℕ) → x % (m * 2) % 2 ≡ x % 2
mod_double_low x m = omega (arith, mod-add-div' x (m * 2))

pub mod_double_half : (x m : ℕ) → 0 < m → x % (m * 2) / 2 ≡ x / 2 % m
mod_double_half x m h =
    let r : ℕ = x % (m * 2) in
    let q : ℕ = x / (m * 2) in
    let small : r < m * 2 = mod-lt x (omega arith) in
    let half : x / 2 ≡ r / 2 + q * m = omega (arith, mod-add-div' x (m * 2)) in
    rw half (sym (add-mul-mod_self_right (r / 2) q m ∙ mod-eq_of_lt (omega arith)))

-- A truncation to `n` bits keeps the bits below `n`.
pub bit-mod : (k n x : ℕ) → bit k (x % 2 ^ n) ≡ (if ltb k n then bit k x else 0)
unfolding bit
bit-mod k zero x =
    let none_left : x % 2 ^ 0 ≡ 0 = omega arith in rw none_left (ground (arith, bit_of_zero k))
bit-mod zero (suc n) x = rw pow-suc (ground (arith, mod_double_low x (2 ^ n)))
bit-mod (suc k) (suc n) x =
    rw (pow-suc, mod_double_half x (2 ^ n) (pow_pos n)) (ground (arith, bit-mod k n (x / 2)))

-- `bit` as the source writes it, `(x >> k) & 1`.
pub bit_shift_mask : (k x : ℕ) → x / 2 ^ k % 2 ≡ bit k x
unfolding bit
bit_shift_mask k x = let zero_plus : 0 + k ≡ k = omega arith in rw zero_plus at (bit-shr 0 k x)

-- Numbers below 2 ^ n with the same bits are equal.
pub bits_ext : (n a b : ℕ) → a < 2 ^ n → b < 2 ^ n → ((k : ℕ) → bit k a ≡ bit k b) → a ≡ b
unfolding bit
bits_ext zero a b ha hb h = omega arith
bits_ext (suc n) a b ha hb h =
    let halves : a / 2 ≡ b / 2 =
      bits_ext n (a / 2) (b / 2) (omega (arith, pow-suc 2 n)) (omega (arith, pow-suc 2 n))
        (λ k. h (suc k)) in
    omega (arith, halves, h 0)

pub bit_or-lt : (n a b : ℕ) → a < 2 ^ n → b < 2 ^ n → bit_or a b < 2 ^ n
bit_or-lt zero a b ha hb =
    let za : a ≡ 0 = omega arith in let zb : b ≡ 0 = omega arith in rw (za, zb) (omega arith)
bit_or-lt (suc n) a b ha hb = omega (
  arith,
  pow-suc 2 n,
  bit_or_step a b,
  bit_or-lt n (a / 2) (b / 2) (omega (arith, pow-suc 2 n)) (omega (arith, pow-suc 2 n)),
)

-- Disjoint parts: `lo` below 2 ^ n, and a multiple of 2 ^ n.
pub bit_or_disjoint : (n hi lo : ℕ) → lo < 2 ^ n → bit_or (hi * 2 ^ n) lo ≡ hi * 2 ^ n + lo
bit_or_disjoint zero hi lo h =
    let z : lo ≡ 0 = omega arith in rw z (bit_or-zero (hi * 1) ∙ omega arith)
bit_or_disjoint (suc n) hi lo h =
    let half : hi * 2 ^ suc n / 2 ≡ hi * 2 ^ n =
      omega (arith, ap (λ (t : ℕ). hi * t) (pow-suc 2 n)) in
    omega (
      arith,
      ap (λ (t : ℕ). hi * t) (pow-suc 2 n),
      pow-suc 2 n,
      bit_or_step (hi * 2 ^ suc n) lo,
      ap (λ (t : ℕ). bit_or t (lo / 2)) half,
      bit_or_disjoint n hi (lo / 2) (omega (arith, pow-suc 2 n)),
    )

pub bit_ge : (n k x : ℕ) → x < 2 ^ n → n ≤ k → bit k x ≡ 0
unfolding bit
bit_ge zero k x h g = let z : x ≡ 0 = omega arith in rw z (bit_of_zero k)
bit_ge (suc n) zero x h g = absurd (omega arith)
bit_ge (suc n) (suc k) x h g = bit_ge n k (x / 2) (omega (arith, pow-suc 2 n)) (omega arith)

or_comm_fuel : (n a b : ℕ) → a ≤ n → bit_or a b ≡ bit_or b a
or_comm_fuel n zero b h = zero-bit_or b ∙ sym (bit_or-zero b)
or_comm_fuel zero (suc a) b h = absurd (omega arith)
or_comm_fuel (suc n) (suc a) b h = omega (
  arith,
  bit_or_step (suc a) b,
  bit_or_step b (suc a),
  or_comm_fuel n (suc a / 2) (b / 2) (omega arith),
)

pub bit_or_comm : (a b : ℕ) → bit_or a b ≡ bit_or b a
bit_or_comm a b = or_comm_fuel a a b (omega arith)
