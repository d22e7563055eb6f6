-- ===== src/Net/Replay/Refine.antt =====
-- The window of ReplayWindow.h behaves as the unbounded history of the accepted packet numbers.
use native.Mathlib.Decide.{dec_lt}
use earth_rise_game.Prelude.{
  ◌⊎◌, ℕ, zero, suc, ◌-◌, ◌≤◌, ◌<◌, ◌≡◌, refl, ◌∙◌, Bool, true, false, List, [], ◌∷◌, arith, ltb,
  ◌==◌, if◌then◌else◌, inl, inr, Bool-cases, All, get_or-replicate, replicate,
}
use earth_rise_game.Net.Replay.{
  ReplayWindow, fresh, test_bit, set_bit, slide_forward, check_and_update, run,
}
use earth_rise_game.Net.Replay.Words.{
  IsWindow, IsWord, window_bit, test_bit_lem, set_bit_lem, set_bit-IsWindow,
}
use earth_rise_game.Net.Replay.Slide.{slide_forward_lem, slide_forward-IsWindow}
use earth_rise_game.Prelude.Sets.{contains, contains-cons}
use earth_rise_game.Net.Replay.History
use earth_rise_game.Net.Replay.History.{
  top, is_fresh, remember, contains_above, seen-stale, contains-remember,
}
use earth_rise_game.Prelude.Bits.{bit_of_zero}

abbrev as_bit : Bool → ℕ
as_bit b = if b then 1 else 0

-- The window shows the history: its highest number, and which of the 1024 numbers that end there
-- were accepted. Before the first number it is all zeros.
pub data Shows (w : ReplayWindow) : List ℕ → Type 0 where
  nothing : IsWindow w.bits → w.seen_any ≡ false → ((o : ℕ) → window_bit w.bits o ≡ 0) → Shows w []
  seen :
      {x : ℕ} {xs : List ℕ}
      → IsWindow w.bits
      → w.seen_any ≡ true
      → w.highest ≡ top (x ∷ xs)
      → ((o : ℕ)
          → o < 1024
          → o ≤ w.highest
          → window_bit w.bits o ≡ as_bit (contains (w.highest - o) (x ∷ xs)))
      → Shows w (x ∷ xs)

all_zero : (n i k : ℕ) → window_bit (replicate n 0) i ≡ 0
all_zero n i k = rw get_or-replicate (bit_of_zero _)

zeros-IsWord : (n : ℕ) → All IsWord (replicate n 0)
zeros-IsWord zero = tt
zeros-IsWord (suc n) = (omega arith, zeros-IsWord n)

pub fresh-Shows : Shows fresh []
unfolding fresh
fresh-Shows = nothing (record { size = refl; word = zeros-IsWord 16 }) refl (λ o. all_zero 16 o 0)

-- What the window must show after each kind of accepted number.
abbrev ShowsBits : List ℕ → ℕ → List ℕ → Type 0
ShowsBits ws highest hist =
    (o : ℕ) → o < 1024 → o ≤ highest → window_bit ws o ≡ as_bit (contains (highest - o) hist)

first_bits :
    (ws : List ℕ) (pn : ℕ)
    → IsWindow ws
    → ((o : ℕ) → window_bit ws o ≡ 0)
    → ShowsBits (set_bit ws 0) pn (pn ∷ [])
unfolding contains
first_bits ws pn v zeros o h g = ground (arith, set_bit_lem ws 0 o v (omega arith), zeros o)

module _ (ws : List ℕ) (highest pn : ℕ) (hist : List ℕ) (v : IsWindow ws) where
  ahead_bits :
      highest ≡ top hist
      → ShowsBits ws highest hist
      → highest < pn
      → ShowsBits (set_bit (slide_forward (pn - highest) ws) 0) pn (pn ∷ hist)
  ahead_bits e bits h o ho go =
      let shift : ℕ = pn - highest in
      let moved : List ℕ = slide_forward shift ws in
      let set : window_bit (set_bit moved 0) o ≡ (if o == 0 then 1 else window_bit moved o) =
        set_bit_lem moved 0 o (slide_forward-IsWindow shift ws v) (omega arith) in
      let slid : window_bit moved o ≡ (if ltb o shift then 0 else window_bit ws (o - shift)) =
        slide_forward_lem shift o ws v ho in
      let old : shift ≤ o → window_bit ws (o - shift) ≡ as_bit (contains (pn - o) hist) = λ r.
        let same : pn - o ≡ highest - (o - shift) = omega arith in
        rw same (bits (o - shift) (omega arith) (omega arith)) in
      ground (arith, set, slid, old, contains-cons (pn - o) pn hist, contains_above (pn - o) hist)

  behind_bits :
      ShowsBits ws highest hist
      → pn ≤ highest
      → highest - pn < 1024
      → ShowsBits (set_bit ws (highest - pn)) highest (pn ∷ hist)
  behind_bits bits h near o ho go =
      ground
        (arith, set_bit_lem ws (highest - pn) o v near, bits o, contains-cons (highest - o) pn hist)

  test_bit-contains :
      ShowsBits ws highest hist
      → pn ≤ highest
      → highest - pn < 1024
      → test_bit ws (highest - pn) ≡ contains pn hist
  test_bit-contains bits h near =
      let back : highest - (highest - pn) ≡ pn = omega arith in
      let here : window_bit ws (highest - pn) ≡ as_bit (contains pn hist) =
        rw back at (bits (highest - pn) near (omega arith)) in
      ground (arith, test_bit_lem ws (highest - pn), here)

top-cons_ahead : (pn : ℕ) (hist : List ℕ) → top hist < pn → pn ≡ top (pn ∷ hist)
unfolding top
top-cons_ahead pn hist h = omega arith

top-cons_behind : (pn : ℕ) (hist : List ℕ) → pn ≤ top hist → top hist ≡ top (pn ∷ hist)
unfolding top
top-cons_behind pn hist h = omega arith

-- `CheckAndUpdate` on each of its five paths.
module _ (w : ReplayWindow) (pn : ℕ) where
  check_first :
      w.seen_any ≡ false
      → check_and_update pn w
        ≡ (true, record w { bits = set_bit w.bits 0; highest = pn; seen_any = true })
  unfolding check_and_update
  check_first e = ground arith

  check_ahead :
      w.seen_any ≡ true
      → w.highest < pn
      → check_and_update pn w ≡ (
        true,
        record w { bits = set_bit (slide_forward (pn - w.highest) w.bits) 0; highest = pn },
      )
  unfolding check_and_update
  check_ahead e h = ground arith

  check_stale :
      w.seen_any ≡ true
      → pn ≤ w.highest
      → (1024 ≤ w.highest - pn) ⊎ (test_bit w.bits (w.highest - pn) ≡ true)
      → check_and_update pn w ≡ (false, w)
  unfolding check_and_update
  check_stale e h r = ground arith

  check_behind :
      w.seen_any ≡ true
      → pn ≤ w.highest
      → w.highest - pn < 1024
      → test_bit w.bits (w.highest - pn) ≡ false
      → check_and_update pn w ≡ (true, record w { bits = set_bit w.bits (w.highest - pn) })
  unfolding check_and_update
  check_behind e h near t = ground arith

remember_fresh : (pn : ℕ) (hist : List ℕ) → is_fresh pn hist ≡ true → remember pn hist ≡ pn ∷ hist
unfolding remember
remember_fresh pn hist e = ground arith

remember_stale : (pn : ℕ) (hist : List ℕ) → is_fresh pn hist ≡ false → remember pn hist ≡ hist
unfolding remember
remember_stale pn hist e = ground arith

abbrev Refines : ReplayWindow → ℕ → List ℕ → Type 0
Refines w pn hist =
    ((check_and_update pn w).0 ≡ is_fresh pn hist)
    × Shows (check_and_update pn w).1 (remember pn hist)

stale-Refines :
    (w : ReplayWindow) (pn : ℕ) (hist : List ℕ)
    → Shows w hist
    → is_fresh pn hist ≡ false
    → check_and_update pn w ≡ (false, w)
    → Refines w pn hist
stale-Refines w pn hist s f e = rw (e, remember_stale pn hist f, f) (refl, s)

-- One call: the answer is that of the history, and the window shows the history that follows.
pub check-Refines : (w : ReplayWindow) (pn : ℕ) (hist : List ℕ) → Shows w hist → Refines w pn hist
check-Refines w pn [] (nothing v unseen zeros) =
    let f : is_fresh pn [] ≡ true = unfold is_fresh in refl in
    rw (check_first w pn unseen, remember_fresh pn [] f, f)
      (
        refl,
        seen {x = pn} {xs = []} (set_bit-IsWindow w.bits 0 v) refl (unfold top in omega arith)
            (first_bits w.bits pn v zeros),
      )
check-Refines w pn (x ∷ xs) (seen v any highest bits) = elim (dec_lt w.highest pn) [
  | yes ahead ↦
      let f : is_fresh pn (x ∷ xs) ≡ true = unfold is_fresh in ground arith in
      rw (check_ahead w pn any ahead, remember_fresh pn (x ∷ xs) f, f)
        (
          refl,
          seen {x = pn} {xs = x ∷ xs}
              (set_bit-IsWindow _ 0 (slide_forward-IsWindow (pn - w.highest) w.bits v)) any
              (top-cons_ahead pn (x ∷ xs) (omega arith))
              (ahead_bits w.bits w.highest pn (x ∷ xs) v highest bits ahead),
        )
  | no behind ↦ elim (dec_lt (w.highest - pn) 1024) [
    | no far ↦
        stale-Refines w pn (x ∷ xs) (seen v any highest bits) (unfold is_fresh in ground arith)
          (check_stale w pn any (omega arith) (inl (omega arith)))
    | yes near ↦
        let t : test_bit w.bits (w.highest - pn) ≡ contains pn (x ∷ xs) =
          test_bit-contains w.bits w.highest pn (x ∷ xs) v bits (omega arith) near in
        elim (Bool-cases (contains pn (x ∷ xs))) [
          | inl old ↦
              stale-Refines w pn (x ∷ xs) (seen v any highest bits) (seen-stale pn (x ∷ xs) old)
                (check_stale w pn any (omega arith) (inr (t ∙ old)))
          | inr new ↦
              let f : is_fresh pn (x ∷ xs) ≡ true = unfold is_fresh in ground arith in
              rw
                (
                  check_behind w pn any (omega arith) near (t ∙ new),
                  remember_fresh pn (x ∷ xs) f,
                  f,
                )
                (
                  refl,
                  seen {x = pn} {xs = x ∷ xs} (set_bit-IsWindow w.bits (w.highest - pn) v) any
                      (highest ∙ top-cons_behind pn (x ∷ xs) (omega arith))
                      (behind_bits w.bits w.highest pn (x ∷ xs) v bits (omega arith) near),
                )
        ]
  ]
]

-- From a new window on, the answers to any packet numbers are those of the unbounded history.
pub run_refines :
    (pns : List ℕ) (w : ReplayWindow) (hist : List ℕ)
    → Shows w hist
    → run w pns ≡ History.run hist pns
unfolding run History.run
run_refines [] w hist s = refl
run_refines (pn ∷ pns) w hist s =
    let (same, after) = check-Refines w pn hist s in rw (same, run_refines pns _ _ after) refl
