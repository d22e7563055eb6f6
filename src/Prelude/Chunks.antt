-- ===== src/Prelude/Chunks.antt =====
-- Numbers cut into chunks of bits, and put together again.
use Prim.Native.Nat.{ℕ, zero, suc, ◌+◌, ◌*◌, ◌/◌, ◌%◌, ◌^◌, ◌≤◌, ◌<◌}
use mathlib.Core.Path.{◌≡◌, ap, sym, ◌∙◌}
use native.Mathlib.Omega.{arith}
use native.Mathlib.Nat.{
  pow-suc, mod-lt, mod-add-div, mod-eq_of_lt, add-mul-mod_self_right, mul-lt-mul_of_pos_right,
  mul-le-mul_right, add-mul-div_right, div-eq_of_lt,
}

pub pow-add : (c s : ℕ) → 2 ^ (c + s) ≡ 2 ^ c * 2 ^ s
pow-add zero s = let none_more : 0 + s ≡ s = omega arith in rw none_more (omega arith)
pow-add (suc c) s =
    let up : suc c + s ≡ suc (c + s) = omega arith in
    rw (up, pow-suc 2 (c + s), pow-suc 2 c, pow-add c s) (grind arith)

pub below_chunk : (x p r lo : ℕ) → x < p → lo < r → x * r + lo < p * r
below_chunk x p r lo h k =
    let le : (x + 1) * r ≤ p * r = mul-le-mul_right r (omega arith) in omega (arith, le)

pub mul-mod_cut : (x p s : ℕ) → 0 < p → 0 < s → x * s % (p * s) ≡ x % p * s
mul-mod_cut x p s hp hs =
    let whole : x * s ≡ x % p * s + x / p * (p * s) =
      ap (λ (t : ℕ). t * s) (sym (mod-add-div x p)) ∙ grind arith in
    let small : x % p * s < p * s = mul-lt-mul_of_pos_right (mod-lt x hp) hs in
    rw whole (add-mul-mod_self_right (x % p * s) (x / p) (p * s) ∙ mod-eq_of_lt small)

pub mod_join : (v r p : ℕ) → 0 < r → 0 < p → v / r % p * r + v % r ≡ v % (p * r)
mod_join v r p hr hp =
    let whole : v ≡ v / r % p * r + v % r + v / r / p * (p * r) =
      sym (mod-add-div v r)
      ∙ ap (λ (t : ℕ). v % r + r * t) (sym (mod-add-div (v / r) p))
      ∙ grind arith in
    let small : v / r % p * r + v % r < p * r =
      below_chunk (v / r % p) p r (v % r) (mod-lt (v / r) hp) (mod-lt v hr) in
    sym (
      ap (λ (t : ℕ). t % (p * r)) whole
      ∙ add-mul-mod_self_right (v / r % p * r + v % r) (v / r / p) (p * r)
      ∙ mod-eq_of_lt small)

-- A number whose lower part is `lo`, divided.
pub div_join : (x r lo : ℕ) → lo < r → (x * r + lo) / r ≡ x
div_join x r lo h =
    let flip : x * r + lo ≡ lo + x * r = omega arith in
    let some : 0 < r = omega arith in
    rw (flip, add-mul-div_right lo x some, div-eq_of_lt h) (omega arith)

pub mod-join_low : (x r lo : ℕ) → lo < r → (x * r + lo) % r ≡ lo
mod-join_low x r lo h =
    let flip : x * r + lo ≡ lo + x * r = omega arith in
    rw flip (add-mul-mod_self_right lo x r ∙ mod-eq_of_lt h)
