-- ===== src/Game/Items/Tests.antt =====
-- Items of the player 1 (server/game/item_usage.go, pickup.go, stat_engine.go).
use minnsun_s_adventure.Common.{
  ℕ, ◌+◌, ◌<◌, ◌≤◌, ◌⊎◌, ◌++◌, ◌≡◌, ◌≢◌, refl, ap, [], ◌∷◌, none, some, true, arith, ◌==◌,
  if◌then◌else◌,
}
use minnsun_s_adventure.Common.Int.{pos, leb_ℤ, int64, ◌+ℤ◌, ◌-ℤ◌, ◌*ℤ◌}
use minnsun_s_adventure.Common.Table.{Table, empty, insert, none-some}
use minnsun_s_adventure.Ecs.Entity.{Entity, new_entity}
use minnsun_s_adventure.Ecs.Components.{
  StatsComponent, zero_stats, InventoryComponent, entity_ground_item, quantity, LifetimeComponent,
}
use minnsun_s_adventure.Ecs.Registry.{Registry}
use minnsun_s_adventure.Peakgo.Codec.{Bytes, read_uint64}
use minnsun_s_adventure.Peakgo.Anticheat.{distance_sq}
use minnsun_s_adventure.Game.State.{GameState, returns, spawn_id}
use minnsun_s_adventure.Game.Items.{
  ItemTemplate, consumable, consumed, stowed, vanished, initialize_item_registry, template_of,
  handle_item_usage, handle_item_pickup, spawn_item_on_ground, run_decay,
}
use minnsun_s_adventure.Game.Items.Usage.{handle_item_usage_consumes}
use minnsun_s_adventure.Game.Items.Pickups.{
  picked_up_once, picked_up_across_maps, IsQuiet, BlocksOn, dropped_then_blocks,
}

abbrev potion : ItemTemplate
potion = record {
  id = 101;
  name = "Red Potion";
  description = "Restores 50 Vitality HP instantly.";
  heal_value = pos 50;
  slot_type = consumable;
  bonus_dam = pos 0;
  bonus_hp = pos 0;
}

abbrev potions : Table ItemTemplate
potions = insert 101 potion empty

abbrev hurt : StatsComponent
hurt = record zero_stats { level = pos 1; hp = pos 70; max_hp = pos 100 }

abbrev bag : InventoryComponent
bag = record { items = insert 101 (pos 2) empty }

abbrev drinker : Registry
drinker = record {
  next_id = 9;
  positions = empty;
  conns = empty;
  metadata = empty;
  stats = insert 1 hurt empty;
  ai = empty;
  inventories = insert 1 bag empty;
  lifetimes = empty;
  item_templates = empty;
  equipment = empty;
  parties = empty;
  party_members = empty;
  effects = empty;
}

abbrev drink : Bytes
drink = 0 ∷ 0 ∷ 0 ∷ 0 ∷ 0 ∷ 0 ∷ 0 ∷ 101 ∷ []

reads_101 : read_uint64 drink ≡ some 101
unfolding read_uint64
reads_101 = refl

red_potion_is_registered : initialize_item_registry 101 ≡ some potion
unfolding initialize_item_registry
red_potion_is_registered = refl

handle_item_usage_consumes_example :
    (r' : Registry) × (inv' : InventoryComponent) × (stats' : StatsComponent) × (handle_item_usage
        potions 1 drink drinker
      ≡ some (consumed, r'))
    × (r'.inventories 1 ≡ some inv')
    × ((j : ℕ) → quantity j inv'.items ≡ (if 101 == j then pos 1 else quantity j bag.items))
    × (r'.stats 1 ≡ some stats')
    × (stats'.hp ≡ pos 100)
    × ((p : Entity)
        → p ≢ 1
        → (r'.inventories p ≡ drinker.inventories p) × (r'.stats p ≡ drinker.stats p))
handle_item_usage_consumes_example =
    handle_item_usage_consumes potions 1 drink drinker 101 1 49 69 100 potion bag hurt refl
      reads_101 refl refl refl refl refl refl refl (omega arith) (omega arith) (omega arith)
      (omega arith)

-- The player 1 on map 1, and a potion at the same place of map 2.
abbrev camp : GameState
camp = record {
  registry = record drinker {
    positions =
        insert 1 (record { map_id = pos 1; x = pos 3; z = pos 4 })
          (insert 7 (record { map_id = pos 2; x = pos 3; z = pos 4 }) empty);
    metadata = insert 7 (record { name = "Red Potion"; type = entity_ground_item }) empty;
  };
  free = [];
  grid = empty;
}

near : leb_ℤ (distance_sq (pos 3) (pos 4) (pos 3) (pos 4)) (pos 25) ≡ true
unfolding distance_sq int64 ◌+ℤ◌ ◌-ℤ◌ ◌*ℤ◌
near = refl

gets_it : (handle_item_pickup 1 7 camp).0 ≡ stowed
gets_it =
    picked_up_across_maps 1 7 camp (record { name = "Red Potion"; type = entity_ground_item })
      (record { map_id = pos 1; x = pos 3; z = pos 4 })
      (record { map_id = pos 2; x = pos 3; z = pos 4 }) refl refl refl refl near

picked_up_once_example :
    let s' = (handle_item_pickup 1 7 camp).1 in
    (s'.grid 7 ≡ none) × (handle_item_pickup 2 7 s' ≡ (vanished, s'))
picked_up_once_example =
    picked_up_once 1 2 7 camp (handle_item_pickup 1 7 camp).1
      (ap (λ x. (x, (handle_item_pickup 1 7 camp).1)) gets_it)

-- The potion 7 has no lifetime, so that it stays on the ground.
seven-IsQuiet :
    IsQuiet 300 7
      (spawn_item_on_ground potions 50 101 (record { map_id = pos 1; x = pos 3; z = pos 4 }) camp).1
unfolding spawn_item_on_ground spawn_id new_entity
seven-IsQuiet meta life has ground lives =
    absurd (none-some {V = LifetimeComponent} none refl lives)

dropped_then_blocks_example :
    let (id, s') =
      spawn_item_on_ground potions 50 101 (record { map_id = pos 1; x = pos 3; z = pos 4 }) camp in
    (s'.registry.positions id ≡ some (record { map_id = pos 1; x = pos 3; z = pos 4 }))
    × (template_of id s'.registry ≡ 101)
    × (s'.grid id ≡ some (record { map_id = pos 1; x = pos 3; z = pos 4 }))
    × (((300 < 50 + 240) × (run_decay 300 ((7 ∷ []) ++ (id ∷ [])) s' ≡ returns s'))
        ⊎ ((50 + 240 ≤ 300) × BlocksOn id s' (run_decay 300 ((7 ∷ []) ++ (id ∷ [])) s')))
dropped_then_blocks_example =
    dropped_then_blocks potions 50 300 101 (record { map_id = pos 1; x = pos 3; z = pos 4 }) camp
      potion (7 ∷ []) [] refl (omega arith) (seven-IsQuiet, tt) tt
