-- ===== src/Economy/Keys/Meeting.antt =====
-- Where two events have one key.
use earth_rise_game.Prelude.{
  ℕ, zero, suc, ◌+◌, ◌-◌, ◌*◌, ◌/◌, ◌%◌, ◌^◌, ◌≤◌, ◌<◌, bit_xor, bit_or, ◌≡◌, refl, ap, sym, ◌∙◌,
  arith, ltb, if◌then◌else◌, Bool-cases, inl, inr,
}
use Prim.Native.Nat.{differ}
use earth_rise_game.Prelude.Bits.{
  bit, bit-le-one, bit-or, bit-shl, bit_of_zero, bit_or_disjoint, bit_ge, bits_ext,
}
use earth_rise_game.Prelude.Xor.{bit-xor, bit_xor-lt, differ_assoc}
use earth_rise_game.Economy.Keys.{fold_event, outbox_idem_key}

-- The bits of a tick with bit 21 set.
bit_late :
    (k tick : ℕ)
    → tick < 2 ^ 21
    → bit k (2 ^ 21 + tick) ≡ (if ltb k 21 then bit k tick else bit (k - 21) 1)
bit_late k tick h =
    let parts : bit_or (1 * 2 ^ 21) tick ≡ 2 ^ 21 + tick = bit_or_disjoint 21 1 tick h in
    rw (sym parts) (ground (arith, bit-or k (1 * 2 ^ 21) tick, bit-shl k 21 1, bit_ge 21 k tick h))

bit_pair : (j n : ℕ) → differ (bit j (n * 2)) (bit j 1) ≡ bit j (n * 2 + 1)
unfolding bit
bit_pair zero n =
    let a : n * 2 % 2 ≡ 0 = omega arith in
    let b : (n * 2 + 1) % 2 ≡ 1 = omega arith in rw (a, b) refl
bit_pair (suc j) n =
    let a : n * 2 / 2 ≡ n = omega arith in
    let b : (n * 2 + 1) / 2 ≡ n = omega arith in rw (a, b, bit_of_zero j) (none_added (bit j n))
  where
    none_added : (x : ℕ) → differ x 0 ≡ x
    none_added zero = refl
    none_added (suc x) = refl

-- The bits of the two words, with the same bit `d` of the domain.
bits_meet :
    (k n tick d : ℕ)
    → tick < 2 ^ 21
    → d ≤ 1
    → differ (differ d (bit k (n * 2 * 2 ^ 21))) (bit k (2 ^ 21 + tick))
      ≡ differ (differ d (bit k ((n * 2 + 1) * 2 ^ 21))) (bit k tick)
bits_meet k n tick d h small = elim (Bool-cases (ltb k 21)) [
  | inl e ↦ rw (bit_late k tick h, bit-shl k 21 (n * 2), bit-shl k 21 (n * 2 + 1), e) refl
  | inr e ↦
      let high : bit k tick ≡ 0 = bit_ge 21 k tick h (ground arith) in
      rw (bit_late k tick h, bit-shl k 21 (n * 2), bit-shl k 21 (n * 2 + 1), e, high)
        (differ_assoc d (bit (k - 21) (n * 2)) (bit (k - 21) 1) small (bit-le-one (k - 21) (n * 2))
            (bit-le-one (k - 21) 1)
          ∙ ap (differ d) (bit_pair (k - 21) n)
          ∙ sym (differ_zero (differ d (bit (k - 21) (n * 2 + 1)))))
]
  where
    differ_zero : (x : ℕ) → differ x 0 ≡ x
    differ_zero zero = refl
    differ_zero (suc x) = refl

-- The event of an even net id at a tick of 2 ^ 21 or more has the key of the event of the next net id
-- 2 ^ 21 ticks before, in every domain: for the net ids 2n and 2n + 1 below 2 ^ 32 and any tick below
-- 2 ^ 21.
pub keys_meet :
    (domain n tick : ℕ)
    → n < 2 ^ 31
    → tick < 2 ^ 21
    → outbox_idem_key domain (n * 2) (2 ^ 21 + tick) ≡ outbox_idem_key domain (n * 2 + 1) tick
unfolding outbox_idem_key
keys_meet domain n tick few early =
    ap
      (λ (z : ℕ).
        let z' = bit_xor z (z / 2 ^ 30) * 0xBF58476D1CE4E5B9 % 2 ^ 64 in
        let z'' = bit_xor z' (z' / 2 ^ 27) * 0x94D049BB133111EB % 2 ^ 64 in
        bit_xor z'' (z'' / 2 ^ 31))
      words
  where
    words : fold_event domain (n * 2) (2 ^ 21 + tick) ≡ fold_event domain (n * 2 + 1) tick
    words =
        unfold fold_event in
        let d : ℕ = domain * 0x9E3779B97F4A7C15 % 2 ^ 64 in
        let low : n * 2 * 2 ^ 21 % 2 ^ 64 ≡ n * 2 * 2 ^ 21 = omega arith in
        let high : (n * 2 + 1) * 2 ^ 21 % 2 ^ 64 ≡ (n * 2 + 1) * 2 ^ 21 = omega arith in
        rw (low, high)
          (bits_ext 64 _ _
            (bit_xor-lt 64 _ _ (bit_xor-lt 64 d (n * 2 * 2 ^ 21) (omega arith) (omega arith))
              (omega arith))
            (bit_xor-lt 64 _ _ (bit_xor-lt 64 d ((n * 2 + 1) * 2 ^ 21) (omega arith) (omega arith))
              (omega arith))
            (λ k.
              rw
                (
                  bit-xor k (bit_xor d (n * 2 * 2 ^ 21)) (2 ^ 21 + tick),
                  bit-xor k d (n * 2 * 2 ^ 21),
                  bit-xor k (bit_xor d ((n * 2 + 1) * 2 ^ 21)) tick,
                  bit-xor k d ((n * 2 + 1) * 2 ^ 21),
                )
                (bits_meet k n tick (bit k d) early (bit-le-one k d))))
