-- ===== src/Game/Attack/Tests.antt =====
-- A player attacks a boar (server/game/combat.go).
use minnsun_s_adventure.Common.{ℕ, ◌*◌, ◌≡◌, refl, true, List, [], ◌∷◌, Option, none, some}
use minnsun_s_adventure.Common.Partial.{Gives}
use minnsun_s_adventure.Common.Int.{pos, ◌+ℤ◌, ◌-ℤ◌, ◌*ℤ◌, int64}
use minnsun_s_adventure.Common.Table.{empty, insert}
use minnsun_s_adventure.Ecs.Entity.{new_entity}
use minnsun_s_adventure.Ecs.Components.{zero_stats, entity_monster, entity_player}
use minnsun_s_adventure.Ecs.Registry.{new_registry, remove_entity, delete_components}
use minnsun_s_adventure.Ecs.Accumulator.{new_combat_accumulator}
use minnsun_s_adventure.Game.State.{is_in_range, spawn_id}
use minnsun_s_adventure.Game.Items.{initialize_item_registry, spawn_item_on_ground}
use minnsun_s_adventure.Game.Progression.{level_cascade, add_experience}
use minnsun_s_adventure.Game.Death.{
  MonsterTemplate, death_system, before_removal, remove_dead, notice_numbers, distribute,
}
use minnsun_s_adventure.Game.Attack.{
  Setting, Arena, AttackReply, damage_system, drop_items, drop_loot, land_attack, attack_system,
}
use minnsun_s_adventure.Game.Attack.Buffered.{IsDeferred, attack-IsDeferred}
use minnsun_s_adventure.Peakgo.Anticheat.{distance_sq}
use minnsun_s_adventure.Peakgo.Rng.{intn}
use minnsun_s_adventure.Peakgo.Combat.{resolve_physical, dodges, crits, land}
use minnsun_s_adventure.Peakgo.Loot.{
  initialize_loot_tables, new_loot_table, legacy_drop_to_entry, roll, roll_single, roll_loot,
  consider, quantity_of, number_of_drops,
}

abbrev boar : MonsterTemplate
boar = record {
  id = pos 1;
  name = "Boar";
  hp = pos 10;
  dam = pos 4;
  spawn_x = pos 3;
  spawn_z = pos 3;
  roam_radius = pos 5;
  leash_radius = pos 16;
  attack_cooldown = pos 6;
  xp_reward = 30;
  melee_range = pos 2;
}

abbrev setting : Setting
unfolding initialize_item_registry initialize_loot_tables new_loot_table legacy_drop_to_entry
setting = record {
  items = initialize_item_registry;
  templates = boar ∷ [];
  loot_tables = initialize_loot_tables;
  curve = λ l. 100 * l;
  tick = 500;
  draws = λ i. 0;
  disable_rng = true;
}

abbrev arena : Arena
unfolding new_registry
arena = record {
  battle = record {
    game = record {
      registry = record new_registry {
        next_id = 9;
        positions =
            insert 8 (record { map_id = pos 1; x = pos 3; z = pos 3 })
              (insert 5 (record { map_id = pos 1; x = pos 4; z = pos 4 }) empty);
        metadata =
            insert 8 (record { name = "Boar"; type = entity_monster })
              (insert 5 (record { name = "Ann"; type = entity_player }) empty);
        stats =
            insert 8 (record zero_stats { hp = pos 10; max_hp = pos 10 })
              (insert 5 (record zero_stats { level = pos 1; hp = pos 40; attack = pos 25 }) empty);
      };
      free = [];
      grid = empty;
    };
    events = [];
  };
  buffer = none;
  drawn = 0;
}

attack-IsDeferred_example :
    Gives
      (IsDeferred 8 new_combat_accumulator (record arena { buffer = some new_combat_accumulator }))
      (attack_system setting 5 8 (record arena { buffer = some new_combat_accumulator }))
attack-IsDeferred_example =
    attack-IsDeferred setting 5 8 (record arena { buffer = some new_combat_accumulator })
      new_combat_accumulator refl

next_ids : Option (AttackReply × Arena) → Option (ℕ × List ℕ)
next_ids o = elim o [
  | none ↦ none
  | some r ↦ some (r.1.battle.game.registry.next_id, r.1.battle.game.free)
]

-- The boar is killed, its table gives an item, and no entity is made for it: the place of the death is gone.
no_loot_appears : next_ids (attack_system setting 5 8 arena) ≡ some (9, 8 ∷ [])
unfolding next_ids arena setting attack_system land_attack is_in_range distance_sq resolve_physical
    dodges crits land intn damage_system death_system before_removal remove_dead notice_numbers
    distribute add_experience level_cascade remove_entity delete_components drop_loot drop_items
    roll_loot roll roll_single consider quantity_of number_of_drops spawn_item_on_ground spawn_id
    new_entity int64 ◌+ℤ◌ ◌-ℤ◌ ◌*ℤ◌
no_loot_appears = refl
