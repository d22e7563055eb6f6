-- ===== src/Persist/Restart/Hash.antt =====
-- What the hash of a state tells apart.
use native.Mathlib.Nat.{div-div-eq-div-mul}
use earth_rise_game.Prelude.{
  ℕ, zero, suc, ◌+◌, ◌*◌, ◌/◌, ◌%◌, ◌^◌, ◌<◌, bit_xor, ◌≡◌, refl, ap, sym, ◌∙◌, List, [], ◌∷◌,
  arith, length,
}
use earth_rise_game.Prelude.Xor.{bit_xor-lt, bit_xor_cancel, bit_xor_comm}
use earth_rise_game.Prelude.Chunks.{pow-add}
use earth_rise_game.Persist.Restart.StateHash.{
  hash_bytes, hash_u64, hash_base, hash_ship, hash_build, hash_npc, hash_all, state_hash,
}
use earth_rise_game.Persist.Restart.{
  PersistBase, PersistShip, PersistBuild, PersistNpc, PersistState,
}

-- The inverse of the prime of FNV-1a, modulo 2 ^ 64.
abbrev inverse : ℕ
inverse = 14886173955864302971

inverse_lem : (x : ℕ) → x < 2 ^ 64 → x * 0x100000001B3 % 2 ^ 64 * inverse % 2 ^ 64 ≡ x
inverse_lem x h = omega arith

times_cancel :
    (x y : ℕ)
    → x < 2 ^ 64
    → y < 2 ^ 64
    → x * 0x100000001B3 % 2 ^ 64 ≡ y * 0x100000001B3 % 2 ^ 64
    → x ≡ y
times_cancel x y h k e =
    sym (inverse_lem x h) ∙ ap (λ (n : ℕ). n * inverse % 2 ^ 64) e ∙ inverse_lem y k

hash_bytes_cancel :
    (n i h h' v : ℕ) → h < 2 ^ 64 → h' < 2 ^ 64 → hash_bytes n i h v ≡ hash_bytes n i h' v → h ≡ h'
unfolding hash_bytes
hash_bytes_cancel zero i h h' v a b e = e
hash_bytes_cancel (suc n) i h h' v a b e =
    let byte : ℕ = v / 2 ^ (i * 8) % 2 ^ 8 in
    let small : byte < 2 ^ 64 = omega arith in
    bit_xor_cancel 64 h h' byte a b (
      times_cancel (bit_xor h byte) (bit_xor h' byte) (bit_xor-lt 64 h byte a small)
        (bit_xor-lt 64 h' byte b small)
        (hash_bytes_cancel n (suc i) _ _ v (omega arith) (omega arith) e))

hash_bytes-lt : (n i h v : ℕ) → h < 2 ^ 64 → hash_bytes n i h v < 2 ^ 64
unfolding hash_bytes
hash_bytes-lt zero i h v a = a
hash_bytes-lt (suc n) i h v a = hash_bytes-lt n (suc i) _ v (omega arith)

shift_shift : (v i : ℕ) → v / 2 ^ (suc i * 8) ≡ v / 2 ^ 8 / 2 ^ (i * 8)
shift_shift v i =
    let width : suc i * 8 ≡ 8 + i * 8 = omega arith in
    rw (width, pow-add 8 (i * 8)) (sym (div-div-eq-div-mul v (2 ^ 8) (2 ^ (i * 8))))

-- The rounds from the second one on read the bytes above the last one.
hash_bytes_high :
    (n i h v v' : ℕ) → v / 2 ^ 8 ≡ v' / 2 ^ 8 → hash_bytes n (suc i) h v ≡ hash_bytes n (suc i) h v'
unfolding hash_bytes
hash_bytes_high zero i h v v' e = refl
hash_bytes_high (suc n) i h v v' e =
    let byte : v / 2 ^ (suc i * 8) ≡ v' / 2 ^ (suc i * 8) =
      shift_shift v i ∙ ap (λ (u : ℕ). u / 2 ^ (i * 8)) e ∙ sym (shift_shift v' i) in
    rw byte (hash_bytes_high n (suc i) _ v v' e)

-- Two values that differ in the last byte at most have different hashes, unless they are equal.
hash_u64_tells :
    (h v v' : ℕ) → h < 2 ^ 64 → v / 2 ^ 8 ≡ v' / 2 ^ 8 → hash_u64 h v ≡ hash_u64 h v' → v ≡ v'
unfolding hash_u64 hash_bytes
hash_u64_tells h v v' a e same =
    let first : ℕ → ℕ = λ u. bit_xor h (u / 2 ^ (0 * 8) % 2 ^ 8) in
    let first-lt : (u : ℕ) → first u < 2 ^ 64 =
      λ u. bit_xor-lt 64 h (u / 2 ^ (0 * 8) % 2 ^ 8) a (omega arith) in
    let x : first v ≡ first v' = times_cancel (first v) (first v') (first-lt v) (first-lt v') (
      hash_bytes_cancel 7 1 (first v * 0x100000001B3 % 2 ^ 64) (first v' * 0x100000001B3 % 2 ^ 64)
        v' (omega arith) (omega arith)
        (sym (hash_bytes_high 7 0 (first v * 0x100000001B3 % 2 ^ 64) v v' e) ∙ same)) in
    let low : ℕ → ℕ = λ u. u / 2 ^ (0 * 8) % 2 ^ 8 in
    let swap : (u : ℕ) → bit_xor h (low u) ≡ bit_xor (low u) h =
      λ u. bit_xor_comm 64 h (low u) a (omega arith) in
    let byte : low v ≡ low v' =
      bit_xor_cancel 64 (low v) (low v') h (omega arith) (omega arith)
        (sym (swap v) ∙ x ∙ swap v') in
    omega arith

-- A round of hashing that stays below 2 ^ 64 and never makes two different hashes equal.
record Keeps (f : ℕ → ℕ) : Type 0 where
  bound : (h : ℕ) → h < 2 ^ 64 → f h < 2 ^ 64
  cancel : (h h' : ℕ) → h < 2 ^ 64 → h' < 2 ^ 64 → f h ≡ f h' → h ≡ h'

word-Keeps : (v : ℕ) → Keeps (λ h. hash_u64 h v)
unfolding hash_u64
word-Keeps v = record {
  bound = λ h a. hash_bytes-lt 8 0 h v a;
  cancel = λ h h' a b e. hash_bytes_cancel 8 0 h h' v a b e;
}

then-Keeps : (f g : ℕ → ℕ) → Keeps f → Keeps g → Keeps (λ h. g (f h))
then-Keeps f g x y = record {
  bound = λ h a. y.bound (f h) (x.bound h a);
  cancel = λ h h' a b e. x.cancel h h' a b (y.cancel (f h) (f h') (x.bound h a) (x.bound h' b) e);
}

-- A word, and the rounds behind it.
put : (v : ℕ) (g : ℕ → ℕ) → Keeps g → Keeps (λ h. g (hash_u64 h v))
put v g y = then-Keeps (λ h. hash_u64 h v) g (word-Keeps v) y

base-Keeps : (b : PersistBase) → Keeps (λ h. hash_base h b)
unfolding hash_base
base-Keeps b = put _ _ (
    put _ _ (
      put _ _ (
        put _ _ (
          put _ _ (
            put _ _ (
              put _ _ (
                put _ _
                  (put _ _ (put _ _ (put _ _ (put _ _ (put _ _ (word-Keeps b.base_state)))))))))))))

ship-Keeps : (sh : PersistShip) → Keeps (λ h. hash_ship h sh)
unfolding hash_ship
ship-Keeps sh = put _ _ (
    put _ _ (
      put _ _
        (put _ _ (put _ _ (put _ _ (put _ _ (put _ _ (put _ _ (word-Keeps sh.ship_type)))))))))

build-Keeps : (bd : PersistBuild) → Keeps (λ h. hash_build h bd)
unfolding hash_build
build-Keeps bd = put _ _ (put _ _ (word-Keeps bd.progress))

npc-Keeps : (n : PersistNpc) → Keeps (λ h. hash_npc h n)
unfolding hash_npc
npc-Keeps n = put _ _ (put _ _ (put _ _ (put _ _ (put _ _ (put _ _ (word-Keeps n.ai_state))))))

all-Keeps {ℓ} :
    {A : Type ℓ} (hash : ℕ → A → ℕ)
    → ((x : A) → Keeps (λ h. hash h x))
    → (xs : List A) → Keeps (λ h. hash_all hash h xs)
unfolding hash_all
all-Keeps hash k [] = record { bound = λ h a. a; cancel = λ h h' a b e. e }
all-Keeps hash k (x ∷ xs) =
    then-Keeps (λ h. hash h x) (λ h. hash_all hash h xs) (k x) (all-Keeps hash k xs)

-- A list behind its length, and the rounds behind it.
put_all {ℓ} :
    {A : Type ℓ} (hash : ℕ → A → ℕ)
    → ((x : A) → Keeps (λ h. hash h x))
    → (xs : List A) (g : ℕ → ℕ) → Keeps g
    → Keeps (λ h. g (hash_all hash (hash_u64 h (length xs)) xs))
put_all hash k xs g y =
    then-Keeps (λ h. hash_all hash (hash_u64 h (length xs)) xs) g
      (put (length xs) _ (all-Keeps hash k xs)) y

-- What StateHash makes of the hash of the tick.
abbrev behind_tick : PersistState → ℕ → ℕ
behind_tick s h =
    let h = hash_u64 h s.outbox_seq in
    let h = hash_all hash_base (hash_u64 h (length s.bases)) s.bases in
    let h = hash_all hash_ship (hash_u64 h (length s.ships)) s.ships in
    let h = hash_all hash_build (hash_u64 h (length s.builds)) s.builds in
    hash_all hash_npc (hash_u64 h (length s.npcs)) s.npcs

behind_tick-Keeps : (s : PersistState) → Keeps (behind_tick s)
behind_tick-Keeps s = put s.outbox_seq _ (
    put_all hash_base base-Keeps s.bases _ (
      put_all hash_ship ship-Keeps s.ships _ (
        put_all hash_build build-Keeps s.builds _
          (put (length s.npcs) _ (all-Keeps hash_npc npc-Keeps s.npcs)))))

-- Two states that differ in the last byte of their ticks, and in nothing else, have different hashes:
-- no later round of StateHash undoes a difference.
pub state_hash_tells :
    (s : PersistState) (tick : ℕ)
    → s.tick / 2 ^ 8 ≡ tick / 2 ^ 8
    → ¬ (s.tick ≡ tick)
    → ¬ (state_hash s ≡ state_hash (record s { tick = tick }))
unfolding state_hash
state_hash_tells s tick high differ same = differ (
    hash_u64_tells 0xCBF29CE484222325 s.tick tick (omega arith) high (
      (behind_tick-Keeps s).cancel _ _ ((word-Keeps s.tick).bound 0xCBF29CE484222325 (omega arith))
        ((word-Keeps tick).bound 0xCBF29CE484222325 (omega arith)) same))
