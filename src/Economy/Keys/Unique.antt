-- ===== src/Economy/Keys/Unique.antt =====
-- Where two events have different keys.
use earth_rise_game.Prelude.{ℕ, ◌*◌, ◌/◌, ◌%◌, ◌^◌, ◌<◌, bit_xor, ◌≡◌, ap, sym, ◌∙◌, arith}
use earth_rise_game.Prelude.Xor.{
  bit_xor-lt, bit_xor-zero, bit_xor-shift, bit_xor_cancel_left, xor_shift_cancel,
}
use earth_rise_game.Economy.Keys.{fold_event, outbox_idem_key}

-- The two factors of the scrambling are odd: they have inverses modulo 2 ^ 64.
first_inverse :
    (x : ℕ) → x < 2 ^ 64 → x * 0xBF58476D1CE4E5B9 % 2 ^ 64 * 10871156337175269513 % 2 ^ 64 ≡ x
first_inverse x h = omega arith

second_inverse :
    (x : ℕ) → x < 2 ^ 64 → x * 0x94D049BB133111EB % 2 ^ 64 * 3573116690164977347 % 2 ^ 64 ≡ x
second_inverse x h = omega arith

first_cancel :
    (x y : ℕ)
    → x < 2 ^ 64
    → y < 2 ^ 64
    → x * 0xBF58476D1CE4E5B9 % 2 ^ 64 ≡ y * 0xBF58476D1CE4E5B9 % 2 ^ 64
    → x ≡ y
first_cancel x y h k e =
    sym (first_inverse x h)
    ∙ ap (λ (n : ℕ). n * 10871156337175269513 % 2 ^ 64) e
    ∙ first_inverse y k

second_cancel :
    (x y : ℕ)
    → x < 2 ^ 64
    → y < 2 ^ 64
    → x * 0x94D049BB133111EB % 2 ^ 64 ≡ y * 0x94D049BB133111EB % 2 ^ 64
    → x ≡ y
second_cancel x y h k e =
    sym (second_inverse x h)
    ∙ ap (λ (n : ℕ). n * 3573116690164977347 % 2 ^ 64) e
    ∙ second_inverse y k

shift-lt : (z s : ℕ) → z < 2 ^ 64 → z / 2 ^ s < 2 ^ 64
shift-lt z s h = grind arith

-- The scrambling keeps different words different.
scramble_cancel :
    (z y : ℕ)
    → z < 2 ^ 64
    → y < 2 ^ 64
    → (let z' = bit_xor z (z / 2 ^ 30) * 0xBF58476D1CE4E5B9 % 2 ^ 64 in
        let z'' = bit_xor z' (z' / 2 ^ 27) * 0x94D049BB133111EB % 2 ^ 64 in
        bit_xor z'' (z'' / 2 ^ 31))
      ≡ (let y' = bit_xor y (y / 2 ^ 30) * 0xBF58476D1CE4E5B9 % 2 ^ 64 in
          let y'' = bit_xor y' (y' / 2 ^ 27) * 0x94D049BB133111EB % 2 ^ 64 in
          bit_xor y'' (y'' / 2 ^ 31))
    → z ≡ y
scramble_cancel z y h k e =
    let z' : ℕ = bit_xor z (z / 2 ^ 30) * 0xBF58476D1CE4E5B9 % 2 ^ 64 in
    let y' : ℕ = bit_xor y (y / 2 ^ 30) * 0xBF58476D1CE4E5B9 % 2 ^ 64 in
    let last = xor_shift_cancel 30 64 _ _ (omega arith) (omega arith) e in
    let middle = xor_shift_cancel 26 64 z' y' (omega arith) (omega arith) (
      second_cancel _ _ (bit_xor-lt 64 z' (z' / 2 ^ 27) (omega arith) (omega arith))
        (bit_xor-lt 64 y' (y' / 2 ^ 27) (omega arith) (omega arith)) last) in
    xor_shift_cancel 29 64 z y h k (
      first_cancel _ _ (bit_xor-lt 64 z (z / 2 ^ 30) h (omega arith))
        (bit_xor-lt 64 y (y / 2 ^ 30) k (omega arith)) middle)

-- In one domain, the events of two 32-bit net ids at ticks below 2 ^ 21 have the same key only if they are
-- of the same net id and the same tick.
pub keys_differ :
    (domain net_id tick net_id' tick' : ℕ)
    → net_id < 2 ^ 32
    → net_id' < 2 ^ 32
    → tick < 2 ^ 21
    → tick' < 2 ^ 21
    → outbox_idem_key domain net_id tick ≡ outbox_idem_key domain net_id' tick'
    → (net_id ≡ net_id') × (tick ≡ tick')
unfolding outbox_idem_key fold_event
keys_differ domain a t a' t' ha ha' ht ht' e =
    let d : ℕ = domain * 0x9E3779B97F4A7C15 % 2 ^ 64 in
    let up : ℕ → ℕ = λ x. x * 2 ^ 21 % 2 ^ 64 in
    let front-lt : (x : ℕ) → bit_xor d (up x) < 2 ^ 64 =
      λ x. bit_xor-lt 64 d (up x) (omega arith) (omega arith) in
    let words : bit_xor (bit_xor d (up a)) t ≡ bit_xor (bit_xor d (up a')) t' =
      scramble_cancel _ _ (bit_xor-lt 64 _ t (front-lt a) (omega arith))
        (bit_xor-lt 64 _ t' (front-lt a') (omega arith)) e in
    let high : (x s : ℕ)
        → x < 2 ^ 32
        → s < 2 ^ 21
        → bit_xor (bit_xor d (up x)) s / 2 ^ 21 ≡ bit_xor (d / 2 ^ 21) x =
      λ x s hx hs.
        let none : s / 2 ^ 21 ≡ 0 = omega arith in
        let back : up x / 2 ^ 21 ≡ x = omega arith in
        bit_xor-shift 21 (bit_xor d (up x)) s
        ∙ ap (bit_xor (bit_xor d (up x) / 2 ^ 21)) none
        ∙ bit_xor-zero 64 (bit_xor d (up x) / 2 ^ 21) (omega (arith, front-lt x))
        ∙ bit_xor-shift 21 d (up x)
        ∙ ap (bit_xor (d / 2 ^ 21)) back in
    let ids : a ≡ a' =
      bit_xor_cancel_left 64 a a' (d / 2 ^ 21) (omega arith) (omega arith) (omega arith)
        (sym (high a t ha ht) ∙ ap (λ (z : ℕ). z / 2 ^ 21) words ∙ high a' t' ha' ht') in
    let lows : bit_xor (bit_xor d (up a)) t ≡ bit_xor (bit_xor d (up a)) t' =
      words ∙ ap (λ (x : ℕ). bit_xor (bit_xor d (up x)) t') (sym ids) in
    (
      ids,
      bit_xor_cancel_left 64 t t' (bit_xor d (up a)) (omega arith) (omega arith) (front-lt a) lows,
    )
