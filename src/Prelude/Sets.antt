-- ===== src/Prelude/Sets.antt =====
-- A set of numbers as a list: `unordered_set` where its order does not matter.
use Prim.Native.Nat.{ℕ}
use mathlib.Core.Path.{◌≡◌, refl}
use mathlib.Core.Bool.{Bool, false, ◌||◌}
use mathlib.Core.List.{List, [], ◌∷◌, ◌++◌}
use native.Mathlib.Omega.{arith}
use earth_rise_game.Prelude.Tests.{◌==◌}

unfoldable pub contains : ℕ → List ℕ → Bool
contains n [] = false
contains n (x ∷ xs) = (n == x) || contains n xs

-- No number stands twice.
abbrev pub Distinct : List ℕ → Type 0
Distinct [] = Unit
Distinct (n ∷ ns) = (contains n ns ≡ false) × Distinct ns

pub contains-cons : (n x : ℕ) (xs : List ℕ) → contains n (x ∷ xs) ≡ (n == x || contains n xs)
unfolding contains
contains-cons n x xs = refl

pub contains-append :
    (n : ℕ) (xs ys : List ℕ) → contains n (xs ++ ys) ≡ (contains n xs || contains n ys)
unfolding contains
contains-append n [] ys = refl
contains-append n (x ∷ xs) ys = ground (arith, contains-append n xs ys)

pub append-Distinct :
    (xs : List ℕ) (y : ℕ) → Distinct xs → contains y xs ≡ false → Distinct (xs ++ (y ∷ []))
append-Distinct [] y d h = unfold contains in (refl, tt)
append-Distinct (x ∷ xs) y d h = (
  ground (
    arith,
    contains-append x xs (y ∷ []),
    contains-cons x y [],
    contains-cons y x xs,
    contains_nil x,
    d.0,
  ),
  append-Distinct xs y d.1 (ground (arith, contains-cons y x xs)),
)
  where
    contains_nil : (n : ℕ) → contains n [] ≡ false
    contains_nil n = unfold contains in refl
