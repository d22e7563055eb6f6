-- ===== src/Persist/Outbox/Ledger.antt =====
-- The wallets against the ledger: each balance is the sum of its entries, and no key stands twice.
use earth_rise_game.Prelude.{
  ℕ, ◌≡◌, refl, ap, ◌∙◌, sym, Bool, false, List, [], ◌∷◌, ◌++◌, arith, ltb, leb, ◌==◌,
  if◌then◌else◌, inl, inr, Bool-cases, append-nil, append_assoc,
}
use earth_rise_game.Prelude.Int.{ℤ, pos, ◌+ℤ◌, +ℤ_assoc, +ℤ_comm, zero-+ℤ}
use earth_rise_game.Prelude.Maps.{lookup, lookup-insert}
use earth_rise_game.Prelude.Sets.{contains, Distinct}
use earth_rise_game.Persist.Outbox.{
  EconomyEvent, LedgerEntry, EconomyState, empty_state, balance, commit, apply, offer, drain_loop,
  replay_loop, drop_watermark_only,
}

-- The sum of an account's entries.
unfoldable pub ledger_sum : ℕ → List LedgerEntry → ℤ
ledger_sum account [] = pos 0
ledger_sum account (l ∷ ls) =
    if l.account_id == account then l.delta +ℤ ledger_sum account ls else ledger_sum account ls

-- The keys of the ledger, newest first.
unfoldable pub keys_of : List LedgerEntry → List ℕ → List ℕ
keys_of [] keys = keys
keys_of (l ∷ ls) keys = keys_of ls (l.idem_key ∷ keys)

-- Each entry carries the account's sum up to and with it; `before` holds the entries before these.
abbrev Running : List LedgerEntry → List LedgerEntry → Type 0
Running before [] = Unit
Running before (l ∷ ls) =
    (l.balance_after ≡ ledger_sum l.account_id (before ++ (l ∷ [])))
    × Running (before ++ (l ∷ [])) ls

Running-append :
    (before ls : List LedgerEntry) (l : LedgerEntry)
    → Running before ls
    → l.balance_after ≡ ledger_sum l.account_id ((before ++ ls) ++ (l ∷ []))
    → Running before (ls ++ (l ∷ []))
Running-append before [] l r e =
    (e ∙ ap (λ t. ledger_sum l.account_id (t ++ (l ∷ []))) (append-nil before), tt)
Running-append before (x ∷ ls) l r e = (
  r.0,
  Running-append (before ++ (x ∷ [])) ls l r.1 (
      e
      ∙ ap (λ t. ledger_sum l.account_id (t ++ (l ∷ []))) (sym (append_assoc before (x ∷ []) ls))),
)

-- Each balance is the sum of the account's ledger entries, and each entry carries the balance that
-- it left; the applied keys are the keys of the
-- ledger, and none of them stands twice.
pub record IsBalanced (st : EconomyState) : Type 0 where
  pub sums : (account : ℕ) → balance st account ≡ ledger_sum account st.ledger
  pub running : Running [] st.ledger
  pub keys : st.applied_keys ≡ keys_of st.ledger []
  pub once : Distinct st.applied_keys

pub ledger_sum-append :
    (account : ℕ) (ls : List LedgerEntry) (l : LedgerEntry)
    → ledger_sum account (ls ++ (l ∷ [])) ≡ (
        if l.account_id == account then ledger_sum account ls +ℤ l.delta else ledger_sum account ls)
unfolding ledger_sum
ledger_sum-append account [] l = ground (arith, zero-+ℤ l.delta, +ℤ_comm l.delta (pos 0))
ledger_sum-append account (x ∷ ls) l =
    ground (arith, ledger_sum-append account ls l, +ℤ_assoc x.delta (ledger_sum account ls) l.delta)

keys_of-append :
    (ls : List LedgerEntry) (l : LedgerEntry) (keys : List ℕ)
    → keys_of (ls ++ (l ∷ [])) keys ≡ l.idem_key ∷ keys_of ls keys
unfolding keys_of
keys_of-append [] l keys = refl
keys_of-append (x ∷ ls) l keys = keys_of-append ls l (x.idem_key ∷ keys)

pub balance-commit :
    (e : EconomyEvent) (st : EconomyState) (account : ℕ)
    → balance (commit e st) account
      ≡ (if e.account_id == account then balance st account +ℤ e.amount else balance st account)
unfolding balance commit
balance-commit e st account =
    ground
      (arith, lookup-insert account e.account_id (balance st e.account_id +ℤ e.amount) st.wallet)

commit-IsBalanced :
    (e : EconomyEvent) (st : EconomyState)
    → contains e.idem_key st.applied_keys ≡ false
    → IsBalanced st
    → IsBalanced (commit e st)
unfolding commit
commit-IsBalanced e st new v =
    let after : ℤ = balance st e.account_id +ℤ e.amount in
    let l : LedgerEntry = record {
      seq = e.seq;
      idem_key = e.idem_key;
      account_id = e.account_id;
      delta = e.amount;
      balance_after = after;
    } in
    let sum : (account : ℕ)
        → balance (commit e st) account ≡ ledger_sum account (st.ledger ++ (l ∷ [])) =
      λ account. ground (
        arith,
        balance-commit e st account,
        ledger_sum-append account st.ledger l,
        v.sums account,
      ) in
    record {
      sums = sum;
      running =
          Running-append [] st.ledger l v.running
            (ground (arith, ledger_sum-append e.account_id st.ledger l, v.sums e.account_id));
      keys = ap (λ t. e.idem_key ∷ t) v.keys ∙ sym (keys_of-append st.ledger l []);
      once = (new, v.once);
    }

-- `Apply`, with or without a failure, keeps balances and ledger in step.
pub apply-IsBalanced :
    (e : EconomyEvent) (fail : Bool) (st : EconomyState)
    → IsBalanced st
    → IsBalanced (apply e fail st).1
unfolding apply
apply-IsBalanced e fail st v = elim (Bool-cases (leb e.seq st.last_applied_seq)) [
  | inl drained ↦ rw drained v
  | inr later ↦ elim (Bool-cases (contains e.idem_key st.applied_keys)) [
    | inl known ↦ rw (later, known) v
    | inr new ↦ elim (Bool-cases fail) [
      | inl failed ↦ rw (later, new, failed) v
      | inr runs ↦ rw (later, new, runs) (commit-IsBalanced e st new v)
    ]
  ]
]

pub empty_state-IsBalanced : IsBalanced empty_state
unfolding balance ledger_sum keys_of
empty_state-IsBalanced = record {
  sums = λ account. unfold lookup in refl;
  running = tt;
  keys = refl;
  once = tt;
}

pub drop_watermark_only-IsBalanced :
    (st : EconomyState) → IsBalanced st → IsBalanced (drop_watermark_only st)
unfolding drop_watermark_only balance
drop_watermark_only-IsBalanced st v = record {
  sums = v.sums;
  running = v.running;
  keys = v.keys;
  once = v.once;
}

offer-IsBalanced :
    (watermark : ℕ) (e : EconomyEvent) (st : EconomyState)
    → IsBalanced st
    → IsBalanced (offer watermark e st).1
unfolding offer
offer-IsBalanced watermark e st v = elim (Bool-cases (ltb watermark e.seq)) [
  | inl past ↦ rw past (apply-IsBalanced e false st v)
  | inr done ↦ rw done v
]

pub drain_loop-IsBalanced :
    (watermark : ℕ) (es : List EconomyEvent) (n : ℕ) (st : EconomyState)
    → IsBalanced st
    → IsBalanced (drain_loop watermark es n st).1
unfolding drain_loop
drain_loop-IsBalanced watermark [] n st v = v
drain_loop-IsBalanced watermark (e ∷ es) n st v =
    drain_loop-IsBalanced watermark es _ _ (offer-IsBalanced watermark e st v)

pub replay_loop-IsBalanced :
    (es : List EconomyEvent) (n : ℕ) (st : EconomyState)
    → IsBalanced st
    → IsBalanced (replay_loop es n st).1
unfolding replay_loop
replay_loop-IsBalanced [] n st v = v
replay_loop-IsBalanced (e ∷ es) n st v =
    replay_loop-IsBalanced es _ _ (apply-IsBalanced e false st v)
