-- ===== src/Persist/Outbox/History.antt =====
-- Any history of appends, drains, replays, confirmations and lost watermarks against one clean run of
-- the log.
use earth_rise_game.Prelude.{
  ℕ, suc, ◌+◌, ◌≤◌, ◌≡◌, refl, ap, ◌∙◌, sym, List, [], ◌∷◌, ◌++◌, arith, length, length-append,
  append-nil,
}
use earth_rise_game.Prelude.Int.{ℤ}
use earth_rise_game.Persist.Outbox.{
  EconomyEvent, EconomyEventType, EconomyState, Outbox, empty_state, append, drain, drain_loop,
  replay_all, replay_loop, drop_watermark_only, confirm_drained,
}
use earth_rise_game.Persist.Outbox.Ledger.{
  IsBalanced, drain_loop-IsBalanced, replay_loop-IsBalanced,
}
use earth_rise_game.Persist.Outbox.Core.{
  Core, core, settle_all, settle_all-append, settle_all-Known, Known, Numbered, drain_loop-Known,
  replay_loop-Known, drain_loop_next, replay_loop_next, drain_loop-append, replay_loop-append,
}

-- What happens to an outbox and the economy state that it drains into: an event is appended; a drain
-- or a replay of the whole log is applied and committed; `ConfirmDrained` is called with any number;
-- the state's own watermark is lost in a crash.
pub data Op : Type 0 where
  appends : ℕ → ℕ → ℤ → EconomyEventType → Op
  confirms : ℕ → Op
  drains replays crashes : Op

abbrev pub Pair : Type 0
Pair = Outbox × EconomyState

unfoldable pub step : Pair → Op → Pair
step (box, st) (appends key account amount kind) = ((append key account amount kind box).1, st)
step (box, st) drains = (box, (drain box st).1)
step (box, st) (confirms upto) = (confirm_drained upto box, st)
step (box, st) replays = (box, (replay_all box st).1)
step (box, st) crashes = (box, drop_watermark_only st)

unfoldable pub run : Pair → List Op → Pair
run p [] = p
run p (o ∷ os) = run (step p o) os

-- The newest event that a committed drain or replay has covered, after one more call.
unfoldable pub covered : ℕ → Pair → Op → ℕ
covered done (box, st) drains = box.next_seq
covered done (box, st) replays = box.next_seq
covered done p (appends key account amount kind) = done
covered done p (confirms upto) = done
covered done p crashes = done

-- A call of `ConfirmDrained` is made for events that a committed drain or replay has covered.
abbrev pub IsCovered : ℕ → Op → Type 0
IsCovered done (confirms upto) = upto ≤ done
IsCovered done o = Unit

-- What `ConfirmDrained` asks of its callers, at each of the calls: they confirm after a drain (or a
-- replay) has committed, and no more than it has covered.
abbrev pub AllCovered : ℕ → Pair → List Op → Type 0
AllCovered done p [] = Unit
AllCovered done p (o ∷ os) = IsCovered done o × AllCovered (covered done p o) (step p o) os

abbrev pub no_core : Core
no_core = core empty_state

-- The state is what a clean run over the first part of the log leaves, and neither watermark is past
-- that part, nor is what committed drains have covered.
pub record InStep (done : ℕ) (p : Pair) : Type 0 where
  pub settled : List EconomyEvent
  pub pending : List EconomyEvent
  pub log : p.0.log ≡ settled ++ pending
  pub numbered : Numbered 0 p.0.log
  pub next : p.0.next_seq ≡ length p.0.log
  pub state : core p.1 ≡ settle_all settled no_core
  pub watermark : p.0.drain_watermark ≤ length settled
  pub last : p.1.last_applied_seq ≤ length settled
  pub covers : done ≤ length settled
  pub balanced : IsBalanced p.1

pub Numbered-append :
    (n : ℕ) (es fs : List EconomyEvent)
    → Numbered n (es ++ fs)
    → Numbered n es × Numbered (n + length es) fs
Numbered-append n [] fs h = let same : n + 0 ≡ n = omega arith in (tt, rw same h)
Numbered-append n (e ∷ es) fs h =
    let (front, back) = Numbered-append (n + 1) es fs h.1 in
    let same : n + suc (length es) ≡ n + 1 + length es = omega arith in ((h.0, front), rw same back)

pub append-Numbered :
    (n : ℕ) (es : List EconomyEvent) (e : EconomyEvent)
    → Numbered n es
    → e.seq ≡ n + length es + 1
    → Numbered n (es ++ (e ∷ []))
append-Numbered n [] e h s = (omega arith, tt)
append-Numbered n (x ∷ es) e h s = (h.0, append-Numbered (n + 1) es e h.1 (omega arith))

-- A drain and a replay of a state in step.
module _ (done : ℕ) (box : Outbox) (st : EconomyState) (v : InStep done (box, st)) where
  pub known : Known st.applied_keys v.settled
  known =
      let keys : st.applied_keys ≡ (settle_all v.settled no_core).applied_keys =
        ap (λ (c : Core). c.applied_keys) v.state in
      rw keys (settle_all-Known v.settled no_core)

  pending-Numbered : Numbered (length v.settled) v.pending
  pending-Numbered =
      let from_zero : 0 + length v.settled ≡ length v.settled = omega arith in
      rw from_zero at (Numbered-append 0 v.settled v.pending (rw v.log at v.numbered)).1

  clean : settle_all v.pending (core st) ≡ settle_all box.log no_core
  clean = rw (v.state, v.log) (sym (settle_all-append v.settled v.pending no_core))

  pub settled_pending : length v.settled + length v.pending ≡ length box.log
  settled_pending = sym (ap length v.log ∙ length-append v.settled v.pending)

  drain_pending : drain box st ≡ drain_loop box.drain_watermark v.pending 0 st
  unfolding drain
  drain_pending = rw v.log (
      drain_loop-append box.drain_watermark v.settled v.pending 0 st
      ∙ rw (drain_loop-Known box.drain_watermark v.settled 0 st known) refl)

  replay_pending : replay_all box st ≡ replay_loop v.pending 0 st
  unfolding replay_all
  replay_pending = rw v.log (
      replay_loop-append v.settled v.pending 0 st
      ∙ rw (replay_loop-Known v.settled 0 st known) refl)

  pub drained :
      (core (drain box st).1 ≡ settle_all box.log no_core)
      × ((drain box st).1.last_applied_seq ≤ length box.log)
  drained =
      let (state, last) =
        drain_loop_next box.drain_watermark v.pending (length v.settled) 0 st pending-Numbered
          v.watermark v.last in
      rw drain_pending (state ∙ clean, omega (arith, settled_pending, last))

  pub replayed :
      (core (replay_all box st).1 ≡ settle_all box.log no_core)
      × ((replay_all box st).1.last_applied_seq ≤ length box.log)
  replayed =
      let (state, last) =
        replay_loop_next v.pending (length v.settled) 0 st pending-Numbered v.last in
      rw replay_pending (state ∙ clean, omega (arith, settled_pending, last))

  -- The pair after a run over the whole log.
  pub InStep-after :
      (st' : EconomyState)
      → core st' ≡ settle_all box.log no_core
      → st'.last_applied_seq ≤ length box.log
      → IsBalanced st'
      → InStep box.next_seq (box, st')
  InStep-after st' state last balanced = record {
    settled = box.log;
    pending = [];
    log = sym (append-nil box.log);
    numbered = v.numbered;
    next = v.next;
    state = state;
    watermark = omega (arith, settled_pending, v.watermark);
    last = last;
    covers = omega (arith, v.next);
    balanced = balanced;
  }

pub drain-IsBalanced :
    (box : Outbox) (st : EconomyState) → IsBalanced st → IsBalanced (drain box st).1
unfolding drain
drain-IsBalanced box st v = drain_loop-IsBalanced box.drain_watermark box.log 0 st v

pub replay_all-IsBalanced :
    (box : Outbox) (st : EconomyState) → IsBalanced st → IsBalanced (replay_all box st).1
unfolding replay_all
replay_all-IsBalanced box st v = replay_loop-IsBalanced box.log 0 st v
