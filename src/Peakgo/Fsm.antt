-- ===== src/Peakgo/Fsm.antt =====
-- Finite state machines (server/peakgo/fsm/fsm.go). States and events are integer enums.
pub mod Rules
pub mod Sends
pub mod Timeouts
mod Tests
use Prim.Native.Nat.{compare, Ordering}
use minnsun_s_adventure.Common.{
  ℕ, Bool, true, false, ◌&&◌, List, [], ◌∷◌, ◌++◌, Option, none, some, ◌==◌, if◌then◌else◌,
}
use minnsun_s_adventure.Common.Int.{ℤ, pos, eqb_ℤ}
use minnsun_s_adventure.Common.Table.{Table, empty, insert}
use minnsun_s_adventure.Peakgo.Timer.{TickTimer, reset, set_cooldown, tick}

-- `TransitionHook`: a guard on the old state, the new state and the event.
abbrev pub TransitionHook : Type 0
TransitionHook = ℕ → ℕ → ℕ → Bool

pub record TransitionRule : Type 0 where
  pub from : ℕ
  pub event : ℕ
  pub to : ℕ

pub record FsmDef : Type 0 where
  pub transitions : Table (Table ℕ)
  pub on_enter : Table (List TransitionHook)
  pub on_exit : Table (List TransitionHook)
  pub initial : ℕ

-- `def.transitions[state][event]`, where a missing state has a nil map.
abbrev pub target : FsmDef → ℕ → ℕ → Option ℕ
target def state event = elim (def.transitions state) [ none ↦ none | some m ↦ m event ]

-- `def.transitions[state]`, made where it is missing.
abbrev pub or_empty : Option (Table ℕ) → Table ℕ
or_empty none = empty
or_empty (some m) = m

-- One turn of the loop of `NewFSMDef`; `none` is the panic on a duplicate transition.
abbrev pub add_rule : TransitionRule → FsmDef → Option FsmDef
add_rule rule def = elim (target def rule.from rule.event) [
  | some _ ↦ none
  | none ↦ some (record def {
    transitions =
        insert rule.from (insert rule.event rule.to (or_empty (def.transitions rule.from)))
          def.transitions;
  })
]

abbrev pub add_rules : List TransitionRule → FsmDef → Option FsmDef
add_rules [] def = some def
add_rules (rule ∷ rules) def = elim (add_rule rule def) [
  | none ↦ none
  | some def' ↦ add_rules rules def'
]

-- `NewFSMDef`
unfoldable pub new_fsm_def : ℕ → List TransitionRule → Option FsmDef
new_fsm_def initial rules =
    add_rules rules
      (record { transitions = empty; on_enter = empty; on_exit = empty; initial = initial })

abbrev pub hooks_of : ℕ → Table (List TransitionHook) → List TransitionHook
hooks_of state m = elim (m state) [ none ↦ [] | some hooks ↦ hooks ]

-- `OnEnter` and `OnExit`
unfoldable pub on_enter : ℕ → TransitionHook → FsmDef → FsmDef
on_enter state hook def = record def {
  on_enter = insert state (hooks_of state def.on_enter ++ (hook ∷ [])) def.on_enter;
}

unfoldable pub on_exit : ℕ → TransitionHook → FsmDef → FsmDef
on_exit state hook def = record def {
  on_exit = insert state (hooks_of state def.on_exit ++ (hook ∷ [])) def.on_exit;
}

-- `FSM`; a nil definition is `none`.
pub record Fsm : Type 0 where
  pub def : Option FsmDef
  pub current : ℕ
  pub ticker : TickTimer

abbrev pub zero_ticker : TickTimer
zero_ticker = record { cur = pos 0; cooldown = pos 0 }

-- `NewFSM`
unfoldable pub new_fsm : Option FsmDef → Fsm
new_fsm none = record { def = none; current = 0; ticker = zero_ticker }
new_fsm (some def) = record { def = some def; current = def.initial; ticker = zero_ticker }

-- `Is`
unfoldable pub is : ℕ → Fsm → Bool
is state f = elim f.def [ none ↦ false | some _ ↦ f.current == state ]

-- `Can`
unfoldable pub can : ℕ → Fsm → Bool
can event f = elim f.def [
  | none ↦ false
  | some def ↦ elim (target def f.current event) [ none ↦ false | some _ ↦ true ]
]

-- The loop over the hooks of a state, which stops at the first that rejects.
abbrev pub accepted : ℕ → ℕ → ℕ → List TransitionHook → Bool
accepted from to event [] = true
accepted from to event (hook ∷ hooks) =
    if hook from to event then accepted from to event hooks else false

-- Exit hooks of the old state, then enter hooks of the new one.
abbrev pub hooks_accept : FsmDef → ℕ → ℕ → ℕ → Bool
hooks_accept def from to event =
    accepted from to event (hooks_of from def.on_exit)
    && accepted from to event (hooks_of to def.on_enter)

-- `Send`: the state that it returns, whether a transition was made, and the machine afterwards.
unfoldable pub send : ℕ → Fsm → ℕ × Bool × Fsm
unfolding reset
send event f = elim f.def [
  | none ↦ (f.current, false, f)
  | some def ↦ elim (target def f.current event) [
    | none ↦ (f.current, false, f)
    | some to ↦
        if hooks_accept def f.current to event
        then (f.current, true, record f { current = to; ticker = reset f.ticker })
        else (f.current, false, f)
  ]
]

-- `Force`: the hooks are called with the zero event.
unfoldable pub force : ℕ → Fsm → Fsm
unfolding reset
force state f = elim f.def [
  | none ↦ record f { current = state }
  | some def ↦
      if hooks_accept def f.current state 0
      then record f { current = state; ticker = reset f.ticker }
      else f
]

-- `Reset`
unfoldable pub reset_fsm : Fsm → Fsm
unfolding reset
reset_fsm f = elim f.def [
  | none ↦ f
  | some def ↦ record f { current = def.initial; ticker = reset f.ticker }
]

-- `StateTimer`; nil timeouts are `none`.
pub record StateTimer : Type 0 where
  pub fsm : Fsm
  pub timeouts : Option (Table ℤ)
  pub timeout_event : ℕ

-- `NewStateTimer`
unfoldable pub new_state_timer : Option FsmDef → Option (Table ℤ) → ℕ → StateTimer
unfolding new_fsm
new_state_timer def timeouts event = record {
  fsm = new_fsm def;
  timeouts = timeouts;
  timeout_event = event;
}

-- The counter of the machine, with the timeout of its state as its cooldown.
abbrev pub with_timeout : ℤ → TickTimer → TickTimer
with_timeout timeout t = if eqb_ℤ t.cooldown timeout then t else set_cooldown timeout t

-- `StateTimer.Tick`
unfoldable pub tick_state : StateTimer → Bool × StateTimer
unfolding send tick set_cooldown
tick_state st = elim st.timeouts [
  | none ↦ (false, st)
  | some timeouts ↦ elim (timeouts st.fsm.current) [
    | none ↦ (false, st)
    | some timeout ↦
        let f = st.fsm in
        let (ticker, fired) = tick (with_timeout timeout f.ticker) in
        let (_, ok, f') = send st.timeout_event (record f { ticker = ticker }) in
        if fired
        then (ok, record st { fsm = f' })
        else (false, record st { fsm = record f { ticker = ticker } })
  ]
]
