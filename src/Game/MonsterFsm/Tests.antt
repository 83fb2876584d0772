-- ===== src/Game/MonsterFsm/Tests.antt =====
-- Runs of a monster's machine (server/game/ai_fsm.go).
use minnsun_s_adventure.Common.{◌≡◌, refl, true, some}
use minnsun_s_adventure.Common.Table.{empty, insert}
use minnsun_s_adventure.Ecs.Components.{zero_ai}
use minnsun_s_adventure.Peakgo.Fsm.{Fsm, zero_ticker}
use minnsun_s_adventure.Peakgo.Fsm.Rules.{find_rule}
use minnsun_s_adventure.Game.MonsterFsm.{
  ev_aggro, event_code, ai_state_of, monster_rules, build_monster_fsm_def, monster_fsm_send,
}
use minnsun_s_adventure.Game.MonsterFsm.Sync.{
  IsMonsterStore, monster_fsm_send-IsMonsterStore, monster_fsm_send_lags,
}

empty-IsMonsterStore : IsMonsterStore empty
unfolding IsMonsterStore
empty-IsMonsterStore id f found = absurd (cc)

monster_fsm_send-IsMonsterStore_example :
    IsMonsterStore (monster_fsm_send 9 ev_aggro zero_ai empty).2
monster_fsm_send-IsMonsterStore_example =
    monster_fsm_send-IsMonsterStore 9 ev_aggro zero_ai empty empty-IsMonsterStore

-- An idle monster.
abbrev idle_monster : Fsm
idle_monster = record { def = build_monster_fsm_def; current = 0; ticker = zero_ticker }

aggro_is_accepted : (monster_fsm_send 9 ev_aggro zero_ai (insert 9 idle_monster empty)).0 ≡ true
unfolding monster_fsm_send build_monster_fsm_def
aggro_is_accepted = refl

monster_fsm_send_lags_example :
    (g : Fsm) × ((monster_fsm_send 9 ev_aggro zero_ai (insert 9 idle_monster empty)).2 9 ≡ some g)
    × (find_rule 0 (event_code ev_aggro) monster_rules ≡ some g.current)
    × ((monster_fsm_send 9 ev_aggro zero_ai (insert 9 idle_monster empty)).1.state ≡ ai_state_of 0)
monster_fsm_send_lags_example =
    monster_fsm_send_lags 9 ev_aggro zero_ai (insert 9 idle_monster empty) idle_monster refl refl
      aggro_is_accepted
