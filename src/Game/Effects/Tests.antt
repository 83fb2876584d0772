-- ===== src/Game/Effects/Tests.antt =====
-- A player and a monster that are poisoned (server/game/effects_system.go).
use minnsun_s_adventure.Common.{
  ◌*◌, ◌≡◌, ◌⊎◌, refl, Bool, true, false, List, [], ◌∷◌, Option, none, some, arith,
}
use minnsun_s_adventure.Common.Int.{pos, ◌+ℤ◌, ◌-ℤ◌, int64}
use minnsun_s_adventure.Common.Table.{empty, insert}
use minnsun_s_adventure.Ecs.Entity.{Entity}
use minnsun_s_adventure.Ecs.Components.{ActiveEffect, poison, zero_stats, entity_monster}
use minnsun_s_adventure.Ecs.Registry.{new_registry}
use minnsun_s_adventure.Game.State.{Locked, returns, blocks}
use minnsun_s_adventure.Game.Decimal.{
  append_uint64, append_int, itoa32, itoa64, digits_loop, with_sign,
}
use minnsun_s_adventure.Game.Death.{Battle, before_removal, notice_numbers}
use minnsun_s_adventure.Game.Effects.{strike, run_effect, effects_loop, run_status_effects}
use minnsun_s_adventure.Game.Effects.Blocking.{
  AllPrintable, AreUnaffected, BlocksAt, run_status_effects_lem,
}

abbrev venom : ActiveEffect
venom = record { kind = poison; value = pos 6; duration_ticks = pos 12; dot_tick_accum = pos 2 }

abbrev marsh : Battle
unfolding new_registry
marsh = record {
  game = record {
    registry = record new_registry {
      metadata = insert 8 (record { name = "Boar"; type = entity_monster }) empty;
      stats =
          insert 8 (record zero_stats { hp = pos 5 })
            (insert 5 (record zero_stats { hp = pos 40 }) empty);
      effects =
          insert 8 (record { active_list = record venom { dot_tick_accum = pos 3 } ∷ [] })
            (insert 5 (record { active_list = venom ∷ [] }) empty);
    };
    free = [];
    grid = empty;
  };
  events = [];
}

abbrev order : List Entity
order = 3 ∷ 5 ∷ 8 ∷ []

marsh-AllPrintable : AllPrintable order marsh
unfolding marsh
marsh-AllPrintable =
    (tt, (((omega arith, omega arith), tt), (((omega arith, omega arith), tt), tt)))

run_status_effects_lem_example :
    (AreUnaffected order marsh
      × (run_status_effects [] (λ l. 100 * l) 300 order marsh ≡ some (returns marsh)))
    ⊎ BlocksAt order marsh (run_status_effects [] (λ l. 100 * l) 300 order marsh)
run_status_effects_lem_example =
    run_status_effects_lem [] (λ l. 100 * l) 300 order marsh marsh-AllPrintable

blocked : Option (Locked Battle) → Bool
blocked o = elim o [ none ↦ false | some r ↦ elim r [ returns b ↦ false | blocks b ↦ true ] ]

blocks_at_first_poisoned : blocked (run_status_effects [] (λ l. 100 * l) 300 order marsh) ≡ true
unfolding marsh blocked run_status_effects effects_loop run_effect strike before_removal
    notice_numbers append_uint64 append_int itoa32 itoa64 digits_loop with_sign int64 ◌+ℤ◌ ◌-ℤ◌
blocks_at_first_poisoned = refl

-- The monster's poison kills it, and its removal blocks.
blocks_at_death : blocked (run_status_effects [] (λ l. 100 * l) 300 (8 ∷ 5 ∷ []) marsh) ≡ true
unfolding marsh blocked run_status_effects effects_loop run_effect strike before_removal
    notice_numbers append_uint64 append_int itoa32 itoa64 digits_loop with_sign int64 ◌+ℤ◌ ◌-ℤ◌
blocks_at_death = refl
