-- ===== src/Persist/Outbox/Core.antt =====
-- What of an economy state is durable, and how a drain or a replay advances it.
use earth_rise_game.Prelude.{
  ℕ, ◌+◌, ◌≤◌, ◌<◌, ◌≡◌, refl, ap, ◌∙◌, sym, true, false, List, [], ◌∷◌, ◌++◌, arith, lt→ltb,
  if◌then◌else◌, inl, inr, Bool-cases, All, length,
}
use earth_rise_game.Prelude.Int.{ℤ}
use earth_rise_game.Prelude.Sets.{contains, contains-cons}
use earth_rise_game.Persist.Outbox.{
  EconomyEvent, LedgerEntry, EconomyState, balance, commit, apply, offer, drain_loop, replay_loop,
}

-- The wallets, the ledger and its unique keys: what one transaction writes, without the watermark.
pub record Core : Type 0 where
  pub wallet : List (ℕ × ℤ)
  pub ledger : List LedgerEntry
  pub applied_keys : List ℕ

abbrev pub core : EconomyState → Core
core st = record { wallet = st.wallet; ledger = st.ledger; applied_keys = st.applied_keys }

abbrev pub with_seq : Core → ℕ → EconomyState
with_seq c n = record {
  wallet = c.wallet;
  ledger = c.ledger;
  applied_keys = c.applied_keys;
  last_applied_seq = n;
}

-- An event with a new key is committed, one with a known key changes nothing.
unfoldable pub settle : EconomyEvent → Core → Core
settle e c = if contains e.idem_key c.applied_keys then c else core (commit e (with_seq c 0))

unfoldable pub settle_all : List EconomyEvent → Core → Core
settle_all [] c = c
settle_all (e ∷ es) c = settle_all es (settle e c)

pub settle_all-append :
    (es fs : List EconomyEvent) (c : Core)
    → settle_all (es ++ fs) c ≡ settle_all fs (settle_all es c)
unfolding settle_all
settle_all-append [] fs c = refl
settle_all-append (e ∷ es) fs c = settle_all-append es fs (settle e c)

-- The keys of all these events are known.
abbrev pub Known : List ℕ → List EconomyEvent → Type 0
Known keys = All (λ e. contains e.idem_key keys ≡ true)

-- The events carry the sequence numbers from `n + 1` on.
abbrev pub Numbered : ℕ → List EconomyEvent → Type 0
Numbered n [] = Unit
Numbered n (e ∷ es) = (e.seq ≡ n + 1) × Numbered (n + 1) es

settle_keeps :
    (k : ℕ) (e : EconomyEvent) (c : Core)
    → contains k c.applied_keys ≡ true
    → contains k (settle e c).applied_keys ≡ true
unfolding settle commit
settle_keeps k e c h = ground (arith, contains-cons k e.idem_key c.applied_keys)

settle_knows : (e : EconomyEvent) (c : Core) → contains e.idem_key (settle e c).applied_keys ≡ true
unfolding settle commit
settle_knows e c = ground (arith, contains-cons e.idem_key e.idem_key c.applied_keys)

settle_all_keeps :
    (es : List EconomyEvent) (k : ℕ) (c : Core)
    → contains k c.applied_keys ≡ true
    → contains k (settle_all es c).applied_keys ≡ true
unfolding settle_all
settle_all_keeps [] k c h = h
settle_all_keeps (e ∷ es) k c h = settle_all_keeps es k (settle e c) (settle_keeps k e c h)

pub settle_all-Known : (es : List EconomyEvent) (c : Core) → Known (settle_all es c).applied_keys es
unfolding settle_all
settle_all-Known [] c = tt
settle_all-Known (e ∷ es) c = (
  settle_all_keeps es e.idem_key (settle e c) (settle_knows e c),
  settle_all-Known es (settle e c),
)

-- `Apply` of a known event changes nothing, and of the next one it settles it.
apply_known :
    (e : EconomyEvent) (st : EconomyState)
    → contains e.idem_key st.applied_keys ≡ true
    → apply e false st ≡ (false, st)
unfolding apply
apply_known e st h = ground arith

offer_known :
    (w : ℕ) (e : EconomyEvent) (st : EconomyState)
    → contains e.idem_key st.applied_keys ≡ true
    → offer w e st ≡ (false, st)
unfolding offer
offer_known w e st h = ground (arith, apply_known e st h)

apply_new :
    (e : EconomyEvent) (st : EconomyState)
    → st.last_applied_seq < e.seq
    → contains e.idem_key st.applied_keys ≡ false
    → apply e false st ≡ (true, commit e st)
unfolding apply
apply_new e st later h = ground arith

settle_known :
    (e : EconomyEvent) (c : Core) → contains e.idem_key c.applied_keys ≡ true → settle e c ≡ c
unfolding settle
settle_known e c h = ground arith

settle_new :
    (e : EconomyEvent) (st : EconomyState)
    → contains e.idem_key st.applied_keys ≡ false
    → settle e (core st) ≡ core (commit e st)
unfolding settle commit balance
settle_new e st h = rw h refl

last-commit :
    (e : EconomyEvent) (st : EconomyState)
    → st.last_applied_seq < e.seq
    → (commit e st).last_applied_seq ≤ e.seq
unfolding commit
last-commit e st later = ground arith

apply_next :
    (e : EconomyEvent) (st : EconomyState)
    → st.last_applied_seq < e.seq
    → (core (apply e false st).1 ≡ settle e (core st))
      × ((apply e false st).1.last_applied_seq ≤ e.seq)
apply_next e st later = elim (Bool-cases (contains e.idem_key st.applied_keys)) [
  | inl known ↦ rw (apply_known e st known) (sym (settle_known e (core st) known), omega arith)
  | inr new ↦ rw (apply_new e st later new) (sym (settle_new e st new), last-commit e st later)
]

offer_past :
    (w : ℕ) (e : EconomyEvent) (st : EconomyState) → w < e.seq → offer w e st ≡ apply e false st
unfolding offer
offer_past w e st h = rw (lt→ltb w e.seq h) refl

-- A loop over known events changes nothing and counts nothing.
pub drain_loop-Known :
    (w : ℕ) (es : List EconomyEvent) (n : ℕ) (st : EconomyState)
    → Known st.applied_keys es
    → drain_loop w es n st ≡ (n, st)
unfolding drain_loop
drain_loop-Known w [] n st h = refl
drain_loop-Known w (e ∷ es) n st h = rw (offer_known w e st h.0) (drain_loop-Known w es n st h.1)

pub replay_loop-Known :
    (es : List EconomyEvent) (n : ℕ) (st : EconomyState)
    → Known st.applied_keys es
    → replay_loop es n st ≡ (n, st)
unfolding replay_loop
replay_loop-Known [] n st h = refl
replay_loop-Known (e ∷ es) n st h = rw (apply_known e st h.0) (replay_loop-Known es n st h.1)

-- A loop over the next events settles them in turn.
pub drain_loop_next :
    (w : ℕ) (es : List EconomyEvent) (n applied : ℕ) (st : EconomyState)
    → Numbered n es
    → w ≤ n
    → st.last_applied_seq ≤ n
    → (core (drain_loop w es applied st).1 ≡ settle_all es (core st))
      × ((drain_loop w es applied st).1.last_applied_seq ≤ n + length es)
unfolding drain_loop settle_all
drain_loop_next w [] n applied st num hw hl = (refl, omega arith)
drain_loop_next w (e ∷ es) n applied st num hw hl =
    let (settled, last) = apply_next e st (omega arith) in
    let st' : EconomyState = (apply e false st).1 in
    let (rest, last') =
      drain_loop_next w es (n + 1) (if (apply e false st).0 then applied + 1 else applied) st' num.1
        (omega arith) (omega arith) in
    rw (offer_past w e st (omega arith), drain_loop)
      (rest ∙ ap (settle_all es) settled, omega arith)

pub replay_loop_next :
    (es : List EconomyEvent) (n applied : ℕ) (st : EconomyState)
    → Numbered n es
    → st.last_applied_seq ≤ n
    → (core (replay_loop es applied st).1 ≡ settle_all es (core st))
      × ((replay_loop es applied st).1.last_applied_seq ≤ n + length es)
unfolding replay_loop settle_all
replay_loop_next [] n applied st num hl = (refl, omega arith)
replay_loop_next (e ∷ es) n applied st num hl =
    let (settled, last) = apply_next e st (omega arith) in
    let st' : EconomyState = (apply e false st).1 in
    let (rest, last') =
      replay_loop_next es (n + 1) (if (apply e false st).0 then applied + 1 else applied) st' num.1
        (omega arith) in
    (rest ∙ ap (settle_all es) settled, omega arith)

pub drain_loop-append :
    (w : ℕ) (es fs : List EconomyEvent) (n : ℕ) (st : EconomyState)
    → let (m, st') = drain_loop w es n st in drain_loop w (es ++ fs) n st ≡ drain_loop w fs m st'
unfolding drain_loop
drain_loop-append w [] fs n st = refl
drain_loop-append w (e ∷ es) fs n st = drain_loop-append w es fs _ _

pub replay_loop-append :
    (es fs : List EconomyEvent) (n : ℕ) (st : EconomyState)
    → let (m, st') = replay_loop es n st in replay_loop (es ++ fs) n st ≡ replay_loop fs m st'
unfolding replay_loop
replay_loop-append [] fs n st = refl
replay_loop-append (e ∷ es) fs n st = replay_loop-append es fs _ _
