-- ===== src/Prelude/Mask.antt =====
-- What a mask keeps of a number: `bit_and`, whose lowest digits meet by `min`.
use Prim.Native.Nat.{
  ℕ, zero, suc, ◌+◌, ◌-◌, ◌*◌, ◌/◌, ◌%◌, ◌^◌, ◌≤◌, min, bit_and, digits, bit_and-bitwise,
}
use mathlib.Core.Path.{◌≡◌, refl}
use native.Mathlib.Omega.{arith}
use native.Mathlib.Nat.{pow-suc}
use earth_rise_game.Prelude.Bits.{bit, mod_double_half, mod_double_low, pow_pos}

abbrev meet : ℕ → ℕ → ℕ → ℕ
meet fuel x y = digits (λ b. zero) min fuel x y

meet_fuel : (f g x y : ℕ) → x ≤ f → x ≤ g → meet f x y ≡ meet g x y
meet_fuel zero zero x y _ _ = refl
meet_fuel zero (suc g) zero y _ _ = refl
meet_fuel zero (suc g) (suc x) y h _ = absurd (omega arith)
meet_fuel (suc f) zero zero y _ _ = refl
meet_fuel (suc f) zero (suc x) y _ h = absurd (omega arith)
meet_fuel (suc f) (suc g) zero y _ _ = refl
meet_fuel (suc f) (suc g) (suc x) y h k =
    omega (arith, meet_fuel f g (suc x / 2) (y / 2) (omega arith) (omega arith))

zero-bit_and : (y : ℕ) → bit_and 0 y ≡ 0
zero-bit_and y = bit_and-bitwise 0 y

bit_and_step : (x y : ℕ) → bit_and x y ≡ bit_and (x / 2) (y / 2) * 2 + min (x % 2) (y % 2)
bit_and_step zero y = omega (arith, zero-bit_and y, zero-bit_and (y / 2))
bit_and_step (suc x) y =
    let shorter : meet x (suc x / 2) (y / 2) ≡ meet (suc x / 2) (suc x / 2) (y / 2) =
      meet_fuel x (suc x / 2) (suc x / 2) (y / 2) (omega arith) (omega arith) in
    omega (arith, bit_and-bitwise (suc x) y, bit_and-bitwise (suc x / 2) (y / 2), shorter)

pub bit-and : (k x y : ℕ) → bit k (bit_and x y) ≡ min (bit k x) (bit k y)
unfolding bit
bit-and zero x y = omega (arith, bit_and_step x y)
bit-and (suc k) x y =
    let half : bit_and x y / 2 ≡ bit_and (x / 2) (y / 2) = omega (arith, bit_and_step x y) in
    rw half (bit-and k (x / 2) (y / 2))

and_zero_fuel : (f x : ℕ) → x ≤ f → bit_and x 0 ≡ 0
and_zero_fuel f zero h = zero-bit_and 0
and_zero_fuel zero (suc x) h = absurd (omega arith)
and_zero_fuel (suc f) (suc x) h =
    omega (arith, bit_and_step (suc x) 0, and_zero_fuel f (suc x / 2) (omega arith))

-- A mask of `n` ones is the remainder by 2 ^ n.
pub bit_and_mask : (n x : ℕ) → bit_and x (2 ^ n - 1) ≡ x % 2 ^ n
bit_and_mask zero x = omega (arith, and_zero_fuel x x (omega arith))
bit_and_mask (suc n) x =
    let half : (2 ^ suc n - 1) / 2 ≡ 2 ^ n - 1 = omega (arith, pow-suc 2 n, pow_pos n) in
    let odd : (2 ^ suc n - 1) % 2 ≡ 1 = omega (arith, pow-suc 2 n, pow_pos n) in
    let rest : bit_and (x / 2) ((2 ^ suc n - 1) / 2) ≡ x / 2 % 2 ^ n =
      rw half (bit_and_mask n (x / 2)) in
    let double : 2 ^ suc n ≡ 2 ^ n * 2 = pow-suc 2 n in
    let low : x % 2 ^ suc n % 2 ≡ x % 2 = rw double (mod_double_low x (2 ^ n)) in
    let high : x % 2 ^ suc n / 2 ≡ x / 2 % 2 ^ n =
      rw double (mod_double_half x (2 ^ n) (pow_pos n)) in
    omega (arith, bit_and_step x (2 ^ suc n - 1), rest, odd, low, high)
