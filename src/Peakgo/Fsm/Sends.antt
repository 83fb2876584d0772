-- ===== src/Peakgo/Fsm/Sends.antt =====
-- What a sequence of `Send`s (server/peakgo/fsm/fsm.go) can do to a machine.
use minnsun_s_adventure.Common.{
  ℕ, zero, suc, ◌≡◌, refl, sym, ap, ◌∙◌, inl, inr, ◌⊎◌, true, false, List, [], ◌∷◌, none, some,
  arith, Bool-cases, Option-cases, some_inj, ◌&&◌, get_elem?, if◌then◌else◌,
}
use minnsun_s_adventure.Common.Int.{pos}
use minnsun_s_adventure.Common.Table.{Table}
use minnsun_s_adventure.Peakgo.Timer.{reset}
use minnsun_s_adventure.Peakgo.Fsm.{
  FsmDef, Fsm, TransitionHook, target, accepted, hooks_of, hooks_accept, send,
}

-- Every hook in the list of a state, where the state has one, accepts the transition.
abbrev pub AllAccept : Table (List TransitionHook) → ℕ → ℕ → ℕ → ℕ → Type 0
AllAccept m state from to event =
    (hooks : List TransitionHook) (i : ℕ) (hook : TransitionHook)
    → m state ≡ some hooks
    → get_elem? hooks i ≡ some hook
    → hook from to event ≡ true

-- Some hook in the list of a state rejects it.
abbrev pub SomeRejects : Table (List TransitionHook) → ℕ → ℕ → ℕ → ℕ → Type 0
SomeRejects m state from to event =
    (hooks : List TransitionHook) × (i : ℕ) × (hook : TransitionHook) × (m state ≡ some hooks)
    × (get_elem? hooks i ≡ some hook)
    × (hook from to event ≡ false)

accepted_each :
    (from to event : ℕ) (hooks : List TransitionHook)
    → accepted from to event hooks ≡ true
    → (i : ℕ) (hook : TransitionHook) → get_elem? hooks i ≡ some hook
    → hook from to event ≡ true
accepted_each from to event [] all i hook at = absurd (cc)
accepted_each from to event (h ∷ hooks) all zero hook at = elim (Bool-cases (h from to event)) [
  | inr e ↦
      let clash : true ≡ false =
        sym all ∙ ap (λ b. if b then accepted from to event hooks else false) e in
      absurd (cc)
  | inl e ↦ ap (λ g. g from to event) (sym (some_inj at)) ∙ e
]
accepted_each from to event (h ∷ hooks) all (suc i) hook at = elim (Bool-cases (h from to event)) [
  | inr e ↦
      let clash : true ≡ false =
        sym all ∙ ap (λ b. if b then accepted from to event hooks else false) e in
      absurd (cc)
  | inl e ↦
      accepted_each from to event hooks
        (ap (λ b. if b then accepted from to event hooks else false) (sym e) ∙ all) i hook at
]

rejected_one :
    (from to event : ℕ) (hooks : List TransitionHook)
    → accepted from to event hooks ≡ false
    → (i : ℕ) × (hook : TransitionHook) × (get_elem? hooks i ≡ some hook)
      × (hook from to event ≡ false)
rejected_one from to event [] none_rejects = absurd (cc)
rejected_one from to event (h ∷ hooks) one_rejects = elim (Bool-cases (h from to event)) [
  | inr e ↦ (0, h, refl, e)
  | inl e ↦
      let (i, hook, at, refuses) =
        rejected_one from to event hooks
          (ap (λ b. if b then accepted from to event hooks else false) (sym e) ∙ one_rejects) in
      (suc i, hook, at, refuses)
]

state_accepts :
    (m : Table (List TransitionHook)) (state from to event : ℕ)
    → accepted from to event (hooks_of state m) ≡ true
    → AllAccept m state from to event
state_accepts m state from to event all hooks i hook there at =
    accepted_each from to event hooks
      (ap (λ o. accepted from to event (elim o [ none ↦ [] | some hooks ↦ hooks ])) (sym there)
        ∙ all)
      i hook at

state_rejects :
    (m : Table (List TransitionHook)) (state from to event : ℕ)
    → accepted from to event (hooks_of state m) ≡ false
    → SomeRejects m state from to event
state_rejects m state from to event one = elim (Option-cases (m state)) [
  | inl e ↦
      let clash : true ≡ false =
        ap (λ o. accepted from to event (elim o [ none ↦ [] | some hooks ↦ hooks ])) (sym e)
        ∙ one in
      absurd (cc)
  | inr (hooks, e) ↦
      let (i, hook, at, refuses) = rejected_one from to event hooks (
        ap (λ o. accepted from to event (elim o [ none ↦ [] | some hooks ↦ hooks ])) (sym e)
        ∙ one) in
      (hooks, i, hook, e, at, refuses)
]

-- All exit hooks of the old state and all enter hooks of the new one accept, or one of them rejects.
abbrev pub HooksAccept : FsmDef → ℕ → ℕ → ℕ → Type 0
HooksAccept def from to event =
    AllAccept def.on_exit from from to event × AllAccept def.on_enter to from to event

abbrev pub HookRejects : FsmDef → ℕ → ℕ → ℕ → Type 0
HookRejects def from to event =
    SomeRejects def.on_exit from from to event ⊎ SomeRejects def.on_enter to from to event

hooks_accept-HooksAccept :
    (def : FsmDef) (from to event : ℕ)
    → hooks_accept def from to event ≡ true
    → HooksAccept def from to event
hooks_accept-HooksAccept def from to event all =
    elim (Bool-cases (accepted from to event (hooks_of from def.on_exit))) [
      | inr e ↦
          let clash : true ≡ false =
            sym all ∙ ap (λ b. b && accepted from to event (hooks_of to def.on_enter)) e in
          absurd (cc)
      | inl e ↦ (
        state_accepts def.on_exit from from to event e,
        state_accepts def.on_enter to from to event
            (ap (λ b. b && accepted from to event (hooks_of to def.on_enter)) (sym e) ∙ all),
      )
    ]

hooks_accept-HookRejects :
    (def : FsmDef) (from to event : ℕ)
    → hooks_accept def from to event ≡ false
    → HookRejects def from to event
hooks_accept-HookRejects def from to event one =
    elim (Bool-cases (accepted from to event (hooks_of from def.on_exit))) [
      | inr e ↦ inl (state_rejects def.on_exit from from to event e)
      | inl e ↦ inr (
          state_rejects def.on_enter to from to event
            (ap (λ b. b && accepted from to event (hooks_of to def.on_enter)) (sym e) ∙ one))
    ]

-- A machine that makes a transition of its definition that all hooks accept, and whose counter starts
-- again.
unfoldable pub IsTransition : Fsm → ℕ → Fsm → Type 0
IsTransition f event f' =
    (def : FsmDef) × (to : ℕ) × (f.def ≡ some def)
    × (target def f.current event ≡ some to)
    × HooksAccept def f.current to event
    × (f'.def ≡ f.def)
    × (f'.current ≡ to)
    × (f'.ticker.cur ≡ pos 0)
    × (f'.ticker.cooldown ≡ f.ticker.cooldown)

-- There is no definition, or no transition in it, or a hook rejects the transition.
unfoldable pub IsRefused : Fsm → ℕ → Type 0
IsRefused f event =
    (f.def ≡ none)
    ⊎ ((def : FsmDef) × (f.def ≡ some def)
        × ((target def f.current event ≡ none)
            ⊎ ((to : ℕ) × (target def f.current event ≡ some to)
                × HookRejects def f.current to event)))

module _ (event : ℕ) (f : Fsm) where
  nothing : f.def ≡ none → send event f ≡ (f.current, false, f)
  unfolding send
  nothing e = ground (arith, e)

  no_target :
      (def : FsmDef)
      → f.def ≡ some def
      → target def f.current event ≡ none
      → send event f ≡ (f.current, false, f)
  unfolding send
  no_target def e g = ground (arith, e, g)

  refused :
      (def : FsmDef) (to : ℕ)
      → f.def ≡ some def
      → target def f.current event ≡ some to
      → hooks_accept def f.current to event ≡ false
      → send event f ≡ (f.current, false, f)
  unfolding send
  refused def to e g h = ground (arith, e, g, h)

  pub sent :
      (def : FsmDef) (to : ℕ)
      → f.def ≡ some def
      → target def f.current event ≡ some to
      → hooks_accept def f.current to event ≡ true
      → send event f ≡ (f.current, true, record f { current = to; ticker = reset f.ticker })
  unfolding send
  sent def to e g h = ground (arith, e, g, h)

  -- `Send` says that it made a transition, and makes it and starts the counter again, where the
  -- definition has one for the state and the event and all hooks accept it; otherwise it says that it
  -- made none, and the machine is as before.
  pub send_lem :
      (((send event f).1 ≡ true) × IsTransition f event (send event f).2)
      ⊎ (((send event f).1 ≡ false) × ((send event f).2 ≡ f) × IsRefused f event)
  unfolding IsTransition IsRefused reset
  send_lem = elim (Option-cases f.def) [
    | inl e ↦ let is = nothing e in inr (ap (λ x. x.1) is, ap (λ x. x.2) is, inl e)
    | inr (def, e) ↦ elim (Option-cases (target def f.current event)) [
      | inl g ↦
          let is = no_target def e g in
          inr (ap (λ x. x.1) is, ap (λ x. x.2) is, inr (def, e, inl g))
      | inr (to, g) ↦ elim (Bool-cases (hooks_accept def f.current to event)) [
        | inl h ↦
            let is = sent def to e g h in
            inl (
              ap (λ x. x.1) is,
              (
                def,
                to,
                e,
                g,
                hooks_accept-HooksAccept def f.current to event h,
                ap (λ x. x.2.def) is,
                ap (λ x. x.2.current) is,
                ap (λ x. x.2.ticker.cur) is,
                ap (λ x. x.2.ticker.cooldown) is,
              ),
            )
        | inr h ↦
            let is = refused def to e g h in
            inr (
              ap (λ x. x.1) is,
              ap (λ x. x.2) is,
              inr (def, e, inr (to, g, hooks_accept-HookRejects def f.current to event h)),
            )
      ]
    ]
  ]

-- `Send` returns the state that the machine was in before.
pub send_returns_old_state : (event : ℕ) (f : Fsm) → (send event f).0 ≡ f.current
unfolding send
send_returns_old_state event f = ground arith

abbrev pub run_sends : List ℕ → Fsm → Fsm
run_sends [] f = f
run_sends (event ∷ events) f = run_sends events (send event f).2

-- A set of states that the transitions do not leave is not left by any sequence of sends.
run_sends_stay :
    (def : FsmDef) (P : ℕ → Type 0)
    → ((s e t : ℕ) → P s → target def s e ≡ some t → P t)
    → (events : List ℕ) (f : Fsm) → f.def ≡ some def
    → P f.current
    → P (run_sends events f).current
unfolding IsTransition
run_sends_stay def P closed [] f e h = h
run_sends_stay def P closed (event ∷ events) f e h = elim (send_lem event f) [
  | inl (_, (def', to, is_def, goes, _, same_def, at_to, _, _)) ↦
      let here = some_inj (sym is_def ∙ e) in
      run_sends_stay def P closed events (send event f).2 (same_def ∙ e) (
        rw at_to
          (closed f.current event to h (sym (ap (λ d. target d f.current event) here) ∙ goes)))
  | inr (_, same, _) ↦
      run_sends_stay def P closed events (send event f).2 (ap (λ x. x.def) same ∙ e) (rw same h)
]
