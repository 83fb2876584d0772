-- ===== src/Peakgo/Fsm/Tests.antt =====
-- Runs of a machine with two states (server/peakgo/fsm/fsm.go).
use minnsun_s_adventure.Common.{ℕ, ◌≤◌, ◌≡◌, refl, ◌⊎◌, true, false, List, [], ◌∷◌, some, arith}
use minnsun_s_adventure.Common.Int.{ℤ, pos}
use minnsun_s_adventure.Common.Table.{Table, empty, insert}
use minnsun_s_adventure.Peakgo.Fsm.{
  FsmDef, Fsm, StateTimer, TransitionRule, target, new_fsm_def, send, zero_ticker,
}
use minnsun_s_adventure.Peakgo.Fsm.Rules.{IsDeterministic, find_rule, new_fsm_def_lem}
use minnsun_s_adventure.Peakgo.Fsm.Sends.{IsTransition, IsRefused, send_lem}
use minnsun_s_adventure.Peakgo.Fsm.Timeouts.{run_states, counting, state_timer_fires}

-- Event 7 leads from state 0 to state 1, and back.
abbrev two_rules : List TransitionRule
two_rules = record { from = 0; event = 7; to = 1 } ∷ record { from = 1; event = 7; to = 0 } ∷ []

two_rules-IsDeterministic : IsDeterministic two_rules
unfolding IsDeterministic
two_rules-IsDeterministic = (refl, (refl, tt))

new_fsm_def_lem_example :
    (def : FsmDef) × (new_fsm_def 0 two_rules ≡ some def)
    × ((s e : ℕ) → target def s e ≡ find_rule s e two_rules)
new_fsm_def_lem_example = new_fsm_def_lem 0 two_rules two_rules-IsDeterministic

abbrev toggle : FsmDef
toggle = record {
  transitions = insert 0 (insert 7 1 empty) (insert 1 (insert 7 0 empty) empty);
  on_enter = empty;
  on_exit = empty;
  initial = 0;
}

abbrev toggled : Fsm
toggled = record { def = some toggle; current = 0; ticker = zero_ticker }

send_lem_example :
    (((send 7 toggled).1 ≡ true) × IsTransition toggled 7 (send 7 toggled).2)
    ⊎ (((send 7 toggled).1 ≡ false) × ((send 7 toggled).2 ≡ toggled) × IsRefused toggled 7)
send_lem_example = send_lem 7 toggled

toggle_stays : (s e t : ℕ) → s ≤ 1 → target toggle s e ≡ some t → t ≤ 1
toggle_stays s e t h found = ground arith

abbrev timeouts : Table ℤ
timeouts = insert 0 (pos 3) empty

abbrev timed : StateTimer
timed = record { fsm = toggled; timeouts = some timeouts; timeout_event = 7 }

state_timer_fires_example :
    ((run_states 2 (counting (pos 0) (pos 0) timed)).fsm.current ≡ 0)
    × ((run_states 3 (counting (pos 0) (pos 0) timed)).fsm.current ≡ 1)
state_timer_fires_example =
    state_timer_fires timed timeouts 3 refl refl (omega arith) (pos 0) toggle 1 2 2 refl
      (omega arith) refl refl refl
