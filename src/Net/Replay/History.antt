-- ===== src/Net/Replay/History.antt =====
-- What a replay window promises: it behaves as one that remembers every number it accepted, and
-- that looks back 1024 numbers from the highest of them.
use earth_rise_game.Prelude.{
  ℕ, ◌-◌, max, Bool, true, false, not, ◌&&◌, ◌||◌, List, [], ◌∷◌, ltb, if◌then◌else◌, ◌≡◌, inl, inr,
  ◌<◌, arith, Bool-cases, refl,
}
use earth_rise_game.Prelude.Sets.{contains}

-- The highest of the accepted numbers, 0 if there is none.
unfoldable pub top : List ℕ → ℕ
top [] = 0
top (x ∷ xs) = max x (top xs)

-- Accepted are the first number, a new highest one, and an unseen one less than 1024 behind it.
unfoldable pub is_fresh : ℕ → List ℕ → Bool
is_fresh pn [] = true
is_fresh pn (x ∷ xs) =
    ltb (top (x ∷ xs)) pn || (ltb (top (x ∷ xs) - pn) 1024 && not (contains pn (x ∷ xs)))

unfoldable pub remember : ℕ → List ℕ → List ℕ
remember pn hist = if is_fresh pn hist then pn ∷ hist else hist

unfoldable pub run : List ℕ → List ℕ → List Bool
run hist [] = []
run hist (pn ∷ pns) = is_fresh pn hist ∷ run (remember pn hist) pns

pub contains_above : (n : ℕ) (xs : List ℕ) → top xs < n → contains n xs ≡ false
unfolding contains top
contains_above n [] h = refl
contains_above n (x ∷ xs) h = ground (arith, contains_above n xs)

-- A number that was remembered is not fresh again.
pub seen-stale : (n : ℕ) (xs : List ℕ) → contains n xs ≡ true → is_fresh n xs ≡ false
unfolding is_fresh
seen-stale n [] h = unfold contains in ground arith
seen-stale n (x ∷ xs) h = elim (Bool-cases (ltb (top (x ∷ xs)) n)) [
  | inl above ↦ ground (arith, contains_above n (x ∷ xs))
  | inr below ↦ ground arith
]

pub contains-remember :
    (n pn : ℕ) (hist : List ℕ) → contains n hist ≡ true → contains n (remember pn hist) ≡ true
unfolding contains remember
contains-remember n pn hist h = ground arith
