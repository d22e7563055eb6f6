-- ===== src/Prelude/Maps.antt =====
-- A map from numbers as an association list: `unordered_map` where its order does not matter.
use Prim.Native.Nat.{ℕ, ◌+◌}
use mathlib.Core.Path.{◌≡◌, refl, ap}
use mathlib.Core.Bool.{true}
use mathlib.Core.Logic.{inl, inr}
use mathlib.Core.List.{List, [], ◌∷◌}
use mathlib.Core.Option.{Option, none, some}
use native.Mathlib.Omega.{arith}
use earth_rise_game.Prelude.Tests.{◌==◌, if◌then◌else◌, Bool-cases}
use earth_rise_game.Prelude.Lists.{length}

module _ {ℓ} {V : Type ℓ} where
  unfoldable pub lookup : ℕ → List (ℕ × V) → Option V
  lookup k [] = none
  lookup k ((j, v) ∷ m) = if j == k then some v else lookup k m

  -- `m[k] = v`.
  unfoldable pub insert : ℕ → V → List (ℕ × V) → List (ℕ × V)
  insert k v [] = (k, v) ∷ []
  insert k v ((j, w) ∷ m) = if j == k then (k, v) ∷ m else (j, w) ∷ insert k v m

  -- `m.erase(k)`.
  unfoldable pub erase : ℕ → List (ℕ × V) → List (ℕ × V)
  erase k [] = []
  erase k ((j, w) ∷ m) = let rest = erase k m in if j == k then rest else (j, w) ∷ rest

  -- No key stands twice.
  abbrev pub KeysDistinct : List (ℕ × V) → Type ℓ
  KeysDistinct [] = Unit {ℓ}
  KeysDistinct ((k, v) ∷ m) = (lookup k m ≡ none) × KeysDistinct m

  pub lookup-insert :
      (j k : ℕ) (v : V) (m : List (ℕ × V))
      → lookup j (insert k v m) ≡ (if k == j then some v else lookup j m)
  unfolding lookup insert
  lookup-insert j k v [] = refl
  lookup-insert j k v ((i, w) ∷ m) = ground (arith, lookup-insert j k v m)

  pub lookup-erase :
      (j k : ℕ) (m : List (ℕ × V)) → lookup j (erase k m) ≡ (if k == j then none else lookup j m)
  unfolding lookup erase
  lookup-erase j k [] = ground arith
  lookup-erase j k ((i, w) ∷ m) = ground (arith, lookup-erase j k m)

  pub insert-KeysDistinct :
      (k : ℕ) (v : V) (m : List (ℕ × V)) → KeysDistinct m → KeysDistinct (insert k v m)
  unfolding insert
  insert-KeysDistinct k v [] d = unfold lookup in (refl, tt)
  insert-KeysDistinct k v ((i, w) ∷ m) d = elim (Bool-cases (i == k)) [
    | inl e ↦ rw e (ground (arith, ap (λ t. lookup t m) (same i k e)), d.1)
    | inr n ↦ rw n (ground (arith, lookup-insert i k v m), insert-KeysDistinct k v m d.1)
  ]
    where
      same : (a b : ℕ) → (a == b) ≡ true → b ≡ a
      same a b h = ground arith

  pub erase-KeysDistinct : (k : ℕ) (m : List (ℕ × V)) → KeysDistinct m → KeysDistinct (erase k m)
  unfolding erase
  erase-KeysDistinct k [] d = tt
  erase-KeysDistinct k ((i, w) ∷ m) d = elim (Bool-cases (i == k)) [
    | inl e ↦ rw e (erase-KeysDistinct k m d.1)
    | inr n ↦ rw n (ground (arith, lookup-erase i k m), erase-KeysDistinct k m d.1)
  ]

  pub length-insert_new :
      (k : ℕ) (v : V) (m : List (ℕ × V)) → lookup k m ≡ none → length (insert k v m) ≡ length m + 1
  unfolding lookup insert
  length-insert_new k v [] h = omega arith
  length-insert_new k v ((i, w) ∷ m) h = ground (arith, length-insert_new k v m)

  pub length-insert_old :
      (k : ℕ) (v w : V) (m : List (ℕ × V)) → lookup k m ≡ some w → length (insert k v m) ≡ length m
  unfolding lookup insert
  length-insert_old k v w [] h = ground arith
  length-insert_old k v w ((i, u) ∷ m) h = ground (arith, length-insert_old k v w m)

  pub erase_absent : (k : ℕ) (m : List (ℕ × V)) → lookup k m ≡ none → erase k m ≡ m
  unfolding lookup erase
  erase_absent k [] h = refl
  erase_absent k ((i, w) ∷ m) h = ground (arith, erase_absent k m)

  pub length-erase :
      (k : ℕ) (v : V) (m : List (ℕ × V))
      → KeysDistinct m
      → lookup k m ≡ some v
      → length (erase k m) + 1 ≡ length m
  unfolding lookup erase
  length-erase k v [] d h = ground arith
  length-erase k v ((i, w) ∷ m) d h = elim (Bool-cases (i == k)) [
    | inl e ↦ ground (arith, e, ap length (erase_absent i m d.0), d.0)
    | inr n ↦ ground (arith, n, length-erase k v m d.1)
  ]
