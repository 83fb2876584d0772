-- ===== src/Peakgo/Fsm/Timeouts.antt =====
-- When a `StateTimer` of server/peakgo/fsm/fsm.go sends its timeout event.
use minnsun_s_adventure.Common.{
  ℕ, zero, suc, ◌+◌, ◌^◌, ◌<◌, ◌≡◌, refl, ap, ◌∙◌, Bool, true, false, some, arith, if◌then◌else◌,
}
use minnsun_s_adventure.Common.Int.{ℤ, pos}
use minnsun_s_adventure.Common.Table.{Table}
use minnsun_s_adventure.Peakgo.Timer.{TickTimer, tick, set_cooldown}
use minnsun_s_adventure.Peakgo.Timer.Period
use minnsun_s_adventure.Peakgo.Timer.Period.{timer_at, tick_below}
use minnsun_s_adventure.Peakgo.Fsm.{
  FsmDef, StateTimer, target, hooks_accept, send, tick_state, with_timeout,
}
use minnsun_s_adventure.Peakgo.Fsm.Sends.{sent}

-- n calls of `Tick`.
abbrev pub run_states : ℕ → StateTimer → StateTimer
run_states zero st = st
run_states (suc n) st = (tick_state (run_states n st)).1

-- The machine with a counter.
abbrev pub counting : ℤ → ℤ → StateTimer → StateTimer
counting k c st =
    let f = st.fsm in record st { fsm = record f { ticker = record { cur = k; cooldown = c } } }

-- The cooldown that n calls of `Tick` leave.
abbrev cooldown_after : ℕ → ℤ → ℤ → ℤ
cooldown_after zero c' c = c'
cooldown_after (suc n) c' c = c

with_timeout_is :
    (k c : ℕ) (c' : ℤ)
    → 0 < c
    → with_timeout (pos c) (record { cur = pos k; cooldown = c' }) ≡ timer_at k c
unfolding set_cooldown
with_timeout_is k c c' h = ground arith

module _ (st : StateTimer) (timeouts : Table ℤ) (c : ℕ) (has : st.timeouts ≡ some timeouts)
    (timeout : timeouts st.fsm.current ≡ some (pos c)) (small : c < 2 ^ 63) where
  -- What `Tick` does once it has read the timeout.
  ticked : TickTimer × Bool → Bool × StateTimer
  ticked (ticker, fired) =
      let f = st.fsm in
      let (_, ok, f') = send st.timeout_event (record f { ticker = ticker }) in
      if fired
      then (ok, record st { fsm = f' })
      else (false, record st { fsm = record f { ticker = ticker } })

  tick_state-ticked :
      (k : ℕ) (c' : ℤ) → 0 < c → tick_state (counting (pos k) c' st) ≡ ticked (tick (timer_at k c))
  unfolding tick_state ticked
  tick_state-ticked k c' h = ground (arith, has, timeout, with_timeout_is k c c' h)

  waits :
      (k : ℕ) (c' : ℤ)
      → k + 1 < c
      → (tick_state (counting (pos k) c' st)).1 ≡ counting (pos (k + 1)) (pos c) st
  unfolding ticked
  waits k c' h =
      ap (λ x. x.1) (tick_state-ticked k c' (omega arith) ∙ ap ticked (tick_below k c small h))

  fires :
      (k : ℕ) (c' : ℤ)
      → k + 1 ≡ c
      → (tick_state (counting (pos k) c' st)).1.fsm
        ≡ (send st.timeout_event (counting (pos 0) (pos c) st).fsm).2
  unfolding ticked
  fires k c' h =
      ap (λ x. x.1.fsm)
        (tick_state-ticked k c' (omega arith) ∙ ap ticked (Period.tick_fires k c small h))

  module _ (c' : ℤ) where
    state_timer_waits :
        (n : ℕ)
        → n < c
        → run_states n (counting (pos 0) c' st) ≡ counting (pos n) (cooldown_after n c' (pos c)) st
    state_timer_waits zero h = refl
    state_timer_waits (suc n) h =
        ap (λ x. (tick_state x).1) (state_timer_waits n (omega arith))
        ∙ waits n _ (omega arith)
        ∙ ap (λ m. counting (pos m) (pos c) st) (omega arith)

    -- A machine whose counter is 0, in a state with timeout c, stays in it for fewer than c calls of
    -- `Tick`; the c-th call makes the transition on the timeout event, where the definition has one and
    -- the hooks accept it.
    pub state_timer_fires :
        (def : FsmDef) (to n m : ℕ)
        → suc n ≡ c
        → m < c
        → st.fsm.def ≡ some def
        → target def st.fsm.current st.timeout_event ≡ some to
        → hooks_accept def st.fsm.current to st.timeout_event ≡ true
        → ((run_states m (counting (pos 0) c' st)).fsm.current ≡ st.fsm.current)
          × ((run_states (suc n) (counting (pos 0) c' st)).fsm.current ≡ to)
    state_timer_fires def to n m h lt is_def goes accept = (
      ap (λ x. x.fsm.current) (state_timer_waits m lt),
      ap (λ x. (tick_state x).1.fsm.current) (state_timer_waits n (omega arith))
          ∙ ap (λ x. x.current) (fires n _ (omega arith))
          ∙ ap (λ x. x.2.current)
              (sent st.timeout_event (counting (pos 0) (pos c) st).fsm def to is_def goes accept),
    )
