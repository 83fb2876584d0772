-- ===== src/Game/MonsterFsm.antt =====
-- The state machines of the monsters (server/game/ai_fsm.go).
pub mod Sync
mod Tests
use Prim.Native.Nat.{compare, Ordering}
use minnsun_s_adventure.Common.{
  ℕ, Bool, true, false, List, [], ◌∷◌, Option, none, some, ◌==◌, if◌then◌else◌,
}
use minnsun_s_adventure.Common.Table.{Table, empty, insert, erase}
use minnsun_s_adventure.Ecs.Entity.{Entity}
use minnsun_s_adventure.Ecs.Components.{
  AiComponent, AiState, idle, roaming, chasing, attacking, returning, transferring,
}
use minnsun_s_adventure.Peakgo.Fsm.{FsmDef, Fsm, TransitionRule, new_fsm_def, new_fsm, send}

-- `AIState`, an uint8 enum
abbrev pub ai_state_code : AiState → ℕ
ai_state_code idle = 0
ai_state_code roaming = 1
ai_state_code chasing = 2
ai_state_code attacking = 3
ai_state_code returning = 4
ai_state_code transferring = 5

-- The state with a code; there is none above 5.
abbrev pub ai_state_of : ℕ → AiState
ai_state_of code =
    if code == 0
    then idle
    else if code == 1
    then roaming
    else if code == 2
    then chasing
    else if code == 3
    then attacking
    else if code == 4
    then returning
    else transferring

-- `MonsterEvent`
pub data MonsterEvent : Type 0 where
  ev_tick ev_aggro ev_lost_target ev_in_range ev_out_of_range ev_path_done ev_at_spawn
        ev_threat_switch :
      MonsterEvent

abbrev pub event_code : MonsterEvent → ℕ
event_code ev_tick = 0
event_code ev_aggro = 1
event_code ev_lost_target = 2
event_code ev_in_range = 3
event_code ev_out_of_range = 4
event_code ev_path_done = 5
event_code ev_at_spawn = 6
event_code ev_threat_switch = 7

abbrev pub rule : AiState → MonsterEvent → AiState → TransitionRule
rule from event to = record {
  from = ai_state_code from;
  event = event_code event;
  to = ai_state_code to;
}

abbrev pub monster_rules : List TransitionRule
monster_rules =
    rule idle ev_tick roaming
    ∷ rule idle ev_aggro chasing
    ∷ rule roaming ev_aggro chasing
    ∷ rule roaming ev_path_done idle
    ∷ rule chasing ev_in_range attacking
    ∷ rule chasing ev_lost_target returning
    ∷ rule chasing ev_threat_switch chasing
    ∷ rule attacking ev_out_of_range chasing
    ∷ rule attacking ev_lost_target returning
    ∷ rule returning ev_at_spawn idle
    ∷ rule returning ev_aggro chasing
    ∷ []

-- `buildMonsterFSMDef`
unfoldable pub build_monster_fsm_def : Option FsmDef
unfolding new_fsm_def
build_monster_fsm_def = new_fsm_def (ai_state_code idle) monster_rules

-- `GetOrCreateMonsterFSM`
unfoldable pub get_or_create_monster_fsm : Entity → Table Fsm → Fsm × Table Fsm
unfolding new_fsm build_monster_fsm_def
get_or_create_monster_fsm id store = elim (store id) [
  | some f ↦ (f, store)
  | none ↦ let f = new_fsm build_monster_fsm_def in (f, insert id f store)
]

-- `RemoveMonsterFSM`
unfoldable pub remove_monster_fsm : Entity → Table Fsm → Table Fsm
remove_monster_fsm id store = erase id store

-- `MonsterFSMSend`: the machine is changed in place. The log is left out.
unfoldable pub monster_fsm_send :
    Entity → MonsterEvent → AiComponent → Table Fsm → Bool × AiComponent × Table Fsm
unfolding get_or_create_monster_fsm send
monster_fsm_send id ev ai store =
    let (inst, store') = get_or_create_monster_fsm id store in
    let (new_state, ok, inst') = send (event_code ev) inst in
    (ok, if ok then record ai { state = ai_state_of new_state } else ai, insert id inst' store')
