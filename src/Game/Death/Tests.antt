-- ===== src/Game/Death/Tests.antt =====
-- A slime that a party of two kills, and its return (server/game/combat.go, server/game/respawn.go).
use minnsun_s_adventure.Game.Decimal.{
  append_uint64, append_int, itoa32, itoa64, digits_loop, with_sign,
}
use minnsun_s_adventure.Common.{◌*◌, ◌^◌, ◌≡◌, refl, [], ◌∷◌, none}
use minnsun_s_adventure.Common.Int.{pos, int64, ◌-ℤ◌}
use minnsun_s_adventure.Common.Table.{empty, insert}
use minnsun_s_adventure.Ecs.Components.{StatsComponent, zero_stats, entity_monster}
use minnsun_s_adventure.Ecs.Registry.{Registry, new_registry}
use minnsun_s_adventure.Game.Death.{
  MonsterTemplate, Battle, death_system, before_removal, notice_numbers,
}

abbrev slime : MonsterTemplate
slime = record {
  id = pos 1;
  name = "Slime";
  hp = pos 60;
  dam = pos 4;
  spawn_x = pos 10;
  spawn_z = pos 10;
  roam_radius = pos 5;
  leash_radius = pos 16;
  attack_cooldown = pos 6;
  xp_reward = 30;
  melee_range = pos 2;
}

abbrev fighter : StatsComponent
fighter = record zero_stats { level = pos 1; hp = pos 40; max_hp = pos 100 }

abbrev field : Registry
unfolding new_registry
field = record new_registry {
  positions = insert 7 (record { map_id = pos 2; x = pos 11; z = pos 9 }) empty;
  stats = insert 3 fighter empty;
  parties = insert 50 (record { leader_id = 3; team_name = "team"; member_ids = 3 ∷ 4 ∷ [] }) empty;
  party_members = insert 3 (record { party_id = 50 }) empty;
}

abbrev battle : Battle
battle = record { game = record { registry = field; free = []; grid = empty }; events = [] }

-- Damage of thirteen digits by a monster: the notice panics.
too_much_damage :
    death_system
      (slime ∷ [])
      (λ l. 100 * l)
      500
      7
      9
      (record { name = "Slime"; type = entity_monster })
      (record { name = "Boar"; type = entity_monster })
      (pos (10 ^ 12))
      battle
    ≡ none
unfolding death_system before_removal notice_numbers append_uint64 append_int itoa32 itoa64
    digits_loop with_sign int64 ◌-ℤ◌
too_much_damage = refl
