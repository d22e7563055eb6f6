-- ===== src/Prelude/Vectors.antt =====
-- `std::vector` as a list: the operations at its end, and the element at an index after a write.
use Prim.Native.Nat.{ℕ, zero, suc, ◌-◌, ◌≤◌, ◌<◌}
use mathlib.Core.Path.{◌≡◌, refl, ap}
use mathlib.Core.Logic.{◌≢◌}
use mathlib.Core.List.{List, [], ◌∷◌, ◌++◌}
use mathlib.Core.Option.{none, some}
use native.Mathlib.Omega.{arith}
use earth_rise_game.Prelude.Lists.{length, get_elem?, get_or, set, replicate, get_or-replicate}

module _ {ℓ} {A : Type ℓ} where
  -- `pop_back`.
  abbrev pub pop_back : List A → List A
  pop_back [] = []
  pop_back (x ∷ []) = []
  pop_back (x ∷ y ∷ xs) = x ∷ pop_back (y ∷ xs)

  -- `dense[to] = std::move(dense[from])`.
  abbrev pub move_element : ℕ → ℕ → List A → List A
  move_element from to xs = elim (get_elem? xs from) [ none ↦ xs | some x ↦ set xs to x ]

module _ {ℓ} {A : Type ℓ} where
  pub length-pop_back : (xs : List A) → length (pop_back xs) ≡ length xs - 1
  length-pop_back [] = omega arith
  length-pop_back (x ∷ []) = omega arith
  length-pop_back (x ∷ y ∷ xs) = omega (arith, length-pop_back (y ∷ xs))

  pub get_elem?-pop_back :
      (xs : List A) (i : ℕ) → suc i < length xs → get_elem? (pop_back xs) i ≡ get_elem? xs i
  get_elem?-pop_back [] i h = absurd (omega arith)
  get_elem?-pop_back (x ∷ []) i h = absurd (omega arith)
  get_elem?-pop_back (x ∷ y ∷ xs) zero h = refl
  get_elem?-pop_back (x ∷ y ∷ xs) (suc i) h = get_elem?-pop_back (y ∷ xs) i (omega arith)

  pub get_or-pop_back :
      (xs : List A) (i : ℕ) (d : A) → suc i < length xs → get_or (pop_back xs) i d ≡ get_or xs i d
  get_or-pop_back [] i d h = absurd (omega arith)
  get_or-pop_back (x ∷ []) i d h = absurd (omega arith)
  get_or-pop_back (x ∷ y ∷ xs) zero d h = refl
  get_or-pop_back (x ∷ y ∷ xs) (suc i) d h = get_or-pop_back (y ∷ xs) i d (omega arith)

  pub get_or_out : (xs : List A) (i : ℕ) (d : A) → length xs ≤ i → get_or xs i d ≡ d
  get_or_out [] i d h = refl
  get_or_out (x ∷ xs) zero d h = absurd (omega arith)
  get_or_out (x ∷ xs) (suc i) d h = get_or_out xs i d (omega arith)

  pub get_or-append_replicate :
      (xs : List A) (n i : ℕ) (d : A) → get_or (xs ++ replicate n d) i d ≡ get_or xs i d
  get_or-append_replicate [] n i d = get_or-replicate n i d
  get_or-append_replicate (x ∷ xs) n zero d = refl
  get_or-append_replicate (x ∷ xs) n (suc i) d = get_or-append_replicate xs n i d

  pub get_elem?-set_self :
      (xs : List A) (i : ℕ) (v : A) → i < length xs → get_elem? (set xs i v) i ≡ some v
  get_elem?-set_self [] i v h = absurd (omega arith)
  get_elem?-set_self (x ∷ xs) zero v h = refl
  get_elem?-set_self (x ∷ xs) (suc i) v h = get_elem?-set_self xs i v (omega arith)

  pub get_elem?-set_ne :
      (xs : List A) (i j : ℕ) (v : A) → i ≢ j → get_elem? (set xs i v) j ≡ get_elem? xs j
  get_elem?-set_ne [] i j v h = refl
  get_elem?-set_ne (x ∷ xs) zero zero v h = absurd (h refl)
  get_elem?-set_ne (x ∷ xs) zero (suc j) v h = refl
  get_elem?-set_ne (x ∷ xs) (suc i) zero v h = refl
  get_elem?-set_ne (x ∷ xs) (suc i) (suc j) v h = get_elem?-set_ne xs i j v (λ e. h (ap suc e))

  pub get_elem?-append_left :
      (xs ys : List A) (i : ℕ) → i < length xs → get_elem? (xs ++ ys) i ≡ get_elem? xs i
  get_elem?-append_left [] ys i h = absurd (omega arith)
  get_elem?-append_left (x ∷ xs) ys zero h = refl
  get_elem?-append_left (x ∷ xs) ys (suc i) h = get_elem?-append_left xs ys i (omega arith)
