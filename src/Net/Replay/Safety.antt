-- ===== src/Net/Replay/Safety.antt =====
-- No packet number passes the replay window twice, and an unseen recent one always passes.
use earth_rise_game.Prelude.{
  ℕ, ◌≡◌, refl, Bool, true, false, List, [], ◌∷◌, arith, if◌then◌else◌, inl, inr, Bool-cases, All,
}
use earth_rise_game.Net.Replay.{fresh, run}
use earth_rise_game.Prelude.Sets.{contains, contains-cons, Distinct}
use earth_rise_game.Net.Replay.History
use earth_rise_game.Net.Replay.History.{is_fresh, remember, seen-stale, top}
use earth_rise_game.Net.Replay.Refine.{fresh-Shows, run_refines}

-- The packet numbers that got the answer `true`.
abbrev pub accepted : List ℕ → List Bool → List ℕ
accepted (pn ∷ pns) (b ∷ bs) = if b then pn ∷ accepted pns bs else accepted pns bs
accepted pns bs = []

abbrev Unseen : List ℕ → List ℕ → Type 0
Unseen hist = All (λ n. contains n hist ≡ false)

Unseen-tail :
    (pn : ℕ) (hist ns : List ℕ) → Unseen (pn ∷ hist) ns → (contains pn ns ≡ false) × Unseen hist ns
Unseen-tail pn hist [] h = unfold contains in (refl, tt)
Unseen-tail pn hist (n ∷ ns) h =
    let (rest, older) = Unseen-tail pn hist ns h.1 in
    (
      ground (arith, contains-cons n pn hist, contains-cons pn n ns, h.0),
      (ground (arith, contains-cons n pn hist, h.0), older),
    )

fresh_unseen : (pn : ℕ) (hist : List ℕ) → is_fresh pn hist ≡ true → contains pn hist ≡ false
fresh_unseen pn hist f = ground (arith, seen-stale pn hist)

history-Distinct :
    (pns hist : List ℕ)
    → Distinct (accepted pns (History.run hist pns))
      × Unseen hist (accepted pns (History.run hist pns))
unfolding History.run remember
history-Distinct [] hist = (tt, tt)
history-Distinct (pn ∷ pns) hist = elim (Bool-cases (is_fresh pn hist)) [
  | inl f ↦
      let (d, u) = history-Distinct pns (pn ∷ hist) in
      let (apart, older) = Unseen-tail pn hist (accepted pns (History.run (pn ∷ hist) pns)) u in
      rw f ((apart, d), (fresh_unseen pn hist f, older))
  | inr s ↦ rw s (history-Distinct pns hist)
]

-- Whatever packet numbers arrive, and in whatever order, the window accepts none of them twice.
pub run-Distinct : (pns : List ℕ) → Distinct (accepted pns (run fresh pns))
run-Distinct pns = rw (run_refines pns fresh [] fresh-Shows) (history-Distinct pns []).0

-- The answers from a new window on are those of a memory of every accepted number.
pub fresh_refines : (pns : List ℕ) → run fresh pns ≡ History.run [] pns
fresh_refines pns = run_refines pns fresh [] fresh-Shows
