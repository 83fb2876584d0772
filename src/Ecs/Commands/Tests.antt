-- ===== src/Ecs/Commands/Tests.antt =====
-- A monster is moved and hit twice, and another one is destroyed (server/ecs/commands.go).
use minnsun_s_adventure.Common.{◌-◌, ◌≡◌, refl, [], arith}
use minnsun_s_adventure.Common.Int.{pos}
use minnsun_s_adventure.Common.Table.{empty, insert}
use minnsun_s_adventure.Ecs.Components.{StatsComponent, zero_stats}
use minnsun_s_adventure.Ecs.Registry.{new_registry}
use minnsun_s_adventure.Ecs.Commands.{
  CommandBuffer, Stores, new_command_buffer, add_move, queue_damage, add_destroy,
  number_of_commands, flush_commands,
}
use minnsun_s_adventure.Ecs.Commands.Flushing.{HasHp, damage_to, flush_commands_hurts}

abbrev monster : StatsComponent
monster = record zero_stats { hp = pos 40 }

abbrev stores : Stores
unfolding new_registry
stores = record {
  registry = record new_registry {
    positions = insert 6 (record { map_id = pos 1; x = pos 0; z = pos 0 }) empty;
    stats = insert 5 monster empty;
  };
  free = [];
  grid = insert 6 (record { map_id = pos 1; x = pos 0; z = pos 0 }) empty;
}

abbrev commands : CommandBuffer
commands = add_destroy 6 (
    queue_damage (record { source = 1; target = 5; amount = pos 30 })
      (queue_damage (record { source = 2; target = 5; amount = pos 25 })
        (add_move (record { entity_id = 5; map_id = pos 1; x = pos 3; z = pos 4 })
          new_command_buffer)))

four_commands : number_of_commands commands ≡ 4
four_commands = refl

stores-HasHp : HasHp 5 40 stores
unfolding stores
stores-HasHp = (monster, refl, refl)

flush_commands_hurts_example :
    HasHp 5 (40 - damage_to 5 commands.damages) (flush_commands commands stores).1
flush_commands_hurts_example =
    flush_commands_hurts commands stores 5 40
      ((25, refl, omega arith), ((30, refl, omega arith), tt)) (omega arith) stores-HasHp tt
      ((λ e. absurd (omega arith)), tt)
